-- ===== src/Command/Run.antt =====
-- `run` against a flat description: a tree of composites runs its leaves from left to right, up
-- to the first that throws.
use mathlib.Core.Option.{some-injective}
use pensar.Base.{
  ℕ, zero, suc, ◌≡◌, refl, ap, ◌∙◌, sym, Option, none, some, List, [], ◌∷◌, ◌++◌, arith,
}
use pensar.Command.{
  Command, leaf, composite, Slots, end, null_slot, freed_slot, slot, Effect, returns, raises,
  faults, Effects, and_then, slots_then, run, run_slots,
}

-- The kinds of the leaves, from left to right; `none` if a slot in use holds no command.
abbrev pub append? : Option (List ℕ) → Option (List ℕ) → Option (List ℕ)
append? none b = none
append? (some a) none = none
append? (some a) (some b) = some (a ++ b)

unfoldable mutual
  pub kinds : Command → Option (List ℕ)
  kinds (leaf id mok kind) = some (kind ∷ [])
  kinds (composite id mok mindex slots) = kinds_slots slots mindex

  pub kinds_slots : Slots → ℕ → Option (List ℕ)
  kinds_slots end zero = some []
  kinds_slots (null_slot rest) zero = some []
  kinds_slots (freed_slot rest) zero = some []
  kinds_slots (slot c rest) zero = some []
  kinds_slots end (suc n) = none
  kinds_slots (null_slot rest) (suc n) = none
  kinds_slots (freed_slot rest) (suc n) = none
  kinds_slots (slot c rest) (suc n) = append? (kinds c) (kinds_slots rest n)

pub append?-eq-some :
    (a b : Option (List ℕ)) {ks : List ℕ}
    → append? a b ≡ some ks
    → (xs ys : List ℕ) × (a ≡ some xs) × (b ≡ some ys) × (ks ≡ xs ++ ys)
append?-eq-some none b e = cc
append?-eq-some (some xs) none e = cc
append?-eq-some (some xs) (some ys) e = (xs, ys, refl, refl, ground arith)

module _ {ℓ} {W : Type ℓ} (fx : Effects W) where
  -- Actions one after the other, up to the first that does not return.
  unfoldable pub run_kinds : List ℕ → W → Effect W
  run_kinds [] w = returns w
  run_kinds (k ∷ ks) w = and_then (fx.do_run k w) (run_kinds ks)

  pub and_then_assoc :
      (e : Effect W) (f g : W → Effect W)
      → and_then (and_then e f) g ≡ and_then e (λ w. and_then (f w) g)
  and_then_assoc (returns w) f g = refl
  and_then_assoc (raises w) f g = refl
  and_then_assoc faults f g = refl

  pub run_kinds-append :
      (xs ys : List ℕ) (w : W) → run_kinds (xs ++ ys) w ≡ and_then (run_kinds xs w) (run_kinds ys)
  unfolding run_kinds
  run_kinds-append [] ys w = refl
  run_kinds-append (x ∷ xs) ys w =
      ap (and_then (fx.do_run x w)) (λ i v. run_kinds-append xs ys v i)
      ∙ sym (and_then_assoc (fx.do_run x w) (run_kinds xs) (run_kinds ys))

  slots_then_effect :
      (e : Effect W) (rest : Slots) (f : W → Effect W × Slots)
      → (slots_then e rest f).0 ≡ and_then e (λ w. (f w).0)
  slots_then_effect (returns w) rest f = refl
  slots_then_effect (raises w) rest f = refl
  slots_then_effect faults rest f = refl

  and_then_returns : (e : Effect W) → and_then e returns ≡ e
  and_then_returns (returns w) = refl
  and_then_returns (raises w) = refl
  and_then_returns faults = refl

  mutual
    unfolding run kinds run_kinds

    run-eq :
        (c : Command) (ks : List ℕ) (w : W) → kinds c ≡ some ks → (run fx c w).0 ≡ run_kinds ks w
    run-eq (leaf id mok kind) ks w e =
        sym (and_then_returns (fx.do_run kind w)) ∙ ap (λ k. run_kinds k w) (some-injective _ _ e)
    run-eq (composite id mok mindex slots) ks w e = run_slots-eq slots mindex ks w e

    run_slots-eq :
        (s : Slots) (n : ℕ) (ks : List ℕ) (w : W)
        → kinds_slots s n ≡ some ks
        → (run_slots fx s n w).0 ≡ run_kinds ks w
    run_slots-eq end zero ks w e = ground arith
    run_slots-eq (null_slot rest) zero ks w e = ground arith
    run_slots-eq (freed_slot rest) zero ks w e = ground arith
    run_slots-eq (slot c rest) zero ks w e = ground arith
    run_slots-eq end (suc n) ks w e = cc
    run_slots-eq (null_slot rest) (suc n) ks w e = cc
    run_slots-eq (freed_slot rest) (suc n) ks w e = cc
    run_slots-eq (slot c rest) (suc n) ks w e =
        let (xs, ys, p, q, r) = append?-eq-some (kinds c) (kinds_slots rest n) e in
        slots_then_effect (run fx c w).0 rest (run_slots fx rest n)
        ∙ (λ i. and_then (run-eq c xs w p i) (λ v. run_slots-eq rest n ys v q i))
        ∙ sym (run_kinds-append xs ys w)
        ∙ ap (λ k. run_kinds k w) (sym r)

-- A tree of composites, with a command in every slot in use, has the effect of its leaves'
-- `_run` from left to right, up to the first that does not return.
pub run-run_kinds {ℓ} :
    {W : Type ℓ} (fx : Effects W) (c : Command) (ks : List ℕ) (w : W)
    → kinds c ≡ some ks
    → (run fx c w).0 ≡ run_kinds fx ks w
run-run_kinds fx c ks w e = run-eq fx c ks w e
