-- ===== src/Generator/Identifiers.antt =====
-- Which identifiers a generator gives, and which its clone gives.
use pensar.Base.{
  ℕ, zero, suc, ◌+◌, ◌*◌, ◌%◌, ◌^◌, ◌<◌, ◌≡◌, refl, ap, ap₂, ◌∙◌, List, [], ◌∷◌, length, arith,
}
use native.Mathlib.Nat.{suc-mul}
use pensar.Generator.{Generator, new_generator, get_id, get_ids, clone, next}

-- Each number is greater than the one before it.
abbrev pub Increasing : ℕ → List ℕ → Type 0
Increasing v [] = Unit
Increasing v (i ∷ is) = (v < i) × Increasing i is

-- While the numbers do not overflow, a generator with a step above 0 gives as many identifiers as
-- are asked for, each greater than the one before and than the value it had, so none twice; and
-- `next` tells the one that `get_id` gives next.
pub get_ids-Increasing :
    (n : ℕ) (g : Generator)
    → 0 < g.step
    → g.value + n * g.step < 2 ^ 63
    → (length (get_ids n g).0 ≡ n) × Increasing g.value (get_ids n g).0 × (next g ≡ (get_id g).0)
unfolding get_ids get_id next
get_ids-Increasing zero g up bound = (refl, tt, refl)
get_ids-Increasing (suc n) g up bound =
    let room : (g.value + g.step) + n * g.step < 2 ^ 63 = omega (arith, suc-mul n g.step) in
    let small : (g.value + g.step) % 2 ^ 64 ≡ g.value + g.step = omega arith in
    let (count, rest, _) =
      get_ids-Increasing n (record g { value = (g.value + g.step) % 2 ^ 64 }) up
        (omega (arith, room, small)) in
    (ap suc count, (omega (arith, small), rest), refl)

get_ids-keeps :
    (n : ℕ) (g : Generator)
    → ((get_ids n g).1.initial_value ≡ g.initial_value) × ((get_ids n g).1.step ≡ g.step)
unfolding get_ids
get_ids-keeps zero g = (refl, refl)
get_ids-keeps (suc n) g = get_ids-keeps n (get_id g).1

abbrev generator_of : ℕ → ℕ → ℕ → ℕ → Generator
generator_of id initial_value value step = record {
  id = id;
  initial_value = initial_value;
  value = value;
  step = step;
}

-- The identifiers depend on the value and the step only.
get_ids-generator_of :
    (n id id' initial_value initial_value' value step : ℕ)
    → (get_ids n (generator_of id initial_value value step)).0
      ≡ (get_ids n (generator_of id' initial_value' value step)).0
unfolding get_ids get_id
get_ids-generator_of zero id id' initial_value initial_value' value step = refl
get_ids-generator_of (suc n) id id' initial_value initial_value' value step =
    ap (◌∷◌ ((value + step) % 2 ^ 64))
      (get_ids-generator_of n id id' initial_value initial_value' ((value + step) % 2 ^ 64) step)

-- A clone starts again at the initial value: whatever identifiers a generator has given, its clone
-- gives the same ones from the first on.
pub get_ids-clone :
    (n m aid initial_value step : ℕ)
    → let g = new_generator aid initial_value step in
      (get_ids n (clone (get_ids m g).1).0).0 ≡ (get_ids n g).0
unfolding clone new_generator
get_ids-clone n m aid initial_value step =
    let g = new_generator aid initial_value step in
    let (same, same_step) = get_ids-keeps m g in
    let used = (get_ids m g).1 in
    get_ids-generator_of n (clone used).0.id g.id used.initial_value initial_value
      used.initial_value used.step
    ∙ ap₂ (λ v t. (get_ids n (generator_of g.id initial_value v t)).0) same same_step
