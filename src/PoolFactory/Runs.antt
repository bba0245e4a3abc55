-- ===== src/PoolFactory/Runs.antt =====
-- `get`, and sequences of calls of `get` and of pointers dropped.
use pensar.Base.{
  ℕ, zero, suc, ◌+◌, ◌-◌, ◌%◌, ◌^◌, ◌≤◌, ◌<◌, ◌≡◌, refl, ap, sym, ◌∙◌, Option, none, some, List, [],
  ◌∷◌, length, replicate, arith, Option-cases, inl, inr, ◌⊎◌,
}
use pensar.PoolFactory.{
  Entry, Pool, got, assertion_fails, endless, new_entry, add, take_free, get, release, new_pool,
  reset,
}
use pensar.PoolFactory.Counts.{
  free, given_out, IsFree, IsValid, free-append, given_out-append, IsFree-append, given_out-le,
  counts-release_at, counts-replicate, take_free-some, take_free-none,
}

module _ {ℓ κ} {A : Type ℓ} {T : Type κ} (make : A → T) (initialize : A → T → T) where
  -- What a call of `get` is to give.
  abbrev pub Gives : ℕ → A → Pool T → Type κ
  Gives fuel args p =
      (i : ℕ) × (p' : Pool T) × (get make initialize fuel args p ≡ got i p')
      × IsFree i p.entries
      × IsValid p'
      × (given_out p'.entries ≡ suc (given_out p.entries))
      × (p'.refill_size ≡ p.refill_size)

  get_found :
      (fuel : ℕ) (args : A) (p : Pool T) (i : ℕ) (es : List (Entry T))
      → IsValid p
      → take_free make initialize args p.entries ≡ some (i, es)
      → Gives (suc fuel) args p
  unfolding get
  get_found fuel args p i es valid found =
      let (one_less, one_more, was_free) =
        take_free-some make initialize args p.entries i es found in
      (
        i,
        record p { entries = es; available_count = (p.available_count + 2 ^ 64 - 1) % 2 ^ 64 },
        rw (get, found) refl,
        was_free,
        (omega arith, omega arith),
        one_more,
        refl,
      )

  counts-add :
      (args : A) (p : Pool T)
      → IsValid p
      → p.available_count ≡ 0
      → p.refill_size < 2 ^ 64
      → IsValid (add make initialize p.refill_size args p)
        × (free (add make initialize p.refill_size args p).entries ≡ p.refill_size)
        × (given_out (add make initialize p.refill_size args p).entries ≡ given_out p.entries)
  unfolding add
  counts-add args p valid empty fits = ground (
    arith,
    free-append p.entries (replicate p.refill_size (new_entry make initialize args)),
    given_out-append p.entries (replicate p.refill_size (new_entry make initialize args)),
    counts-replicate make initialize p.refill_size args,
  )

  get_again :
      (fuel : ℕ) (args : A) (p : Pool T)
      → take_free make initialize args p.entries ≡ none
      → p.available_count ≡ 0
      → get make initialize (suc fuel) args p
        ≡ get make initialize fuel args (add make initialize p.refill_size args p)
  unfolding get
  get_again fuel args p nothing empty = rw (get, nothing, empty) refl

  get_refilled :
      (args : A) (p : Pool T)
      → IsValid p
      → 0 < p.refill_size
      → p.refill_size < 2 ^ 64
      → take_free make initialize args p.entries ≡ none
      → Gives 2 args p
  unfolding add
  get_refilled args p valid some_new fits nothing =
      let empty : p.available_count ≡ 0 =
        sym valid.0 ∙ take_free-none make initialize args p.entries nothing in
      let (valid', many, same) = counts-add args p valid empty fits in
      let p₁ : Pool T = add make initialize p.refill_size args p in
      elim (Option-cases (take_free make initialize args p₁.entries)) [
        | inl none_left ↦ absurd (
            omega (arith, many, some_new, take_free-none make initialize args p₁.entries none_left))
        | inr ((i, es), found) ↦
            let (j, p', given, was_free, valid'', counted, kept) =
              get_found 0 args p₁ i es valid' found in
            (
              j,
              p',
              get_again 1 args p nothing empty ∙ given,
              IsFree-append j p.entries (replicate p.refill_size (new_entry make initialize args))
                  was_free,
              valid'',
              counted ∙ ap suc same,
              kept,
            )
      ]

  -- Where a refill adds an object at least, `get` ends after one refill at most: the assertion
  -- holds, the object it gives was free or is a new one, the count of the available objects
  -- stays right, and one object more is given out.
  pub get-got :
      (args : A) (p : Pool T)
      → IsValid p
      → 0 < p.refill_size
      → p.refill_size < 2 ^ 64
      → Gives 2 args p
  get-got args p valid some_new fits =
      elim (Option-cases (take_free make initialize args p.entries)) [
        | inl nothing ↦ get_refilled args p valid some_new fits nothing
        | inr ((i, es), found) ↦ get_found 1 args p i es valid found
      ]

  -- Calls of `get` with arguments, and pointers dropped; only the calls of `get` may not end.
  unfoldable pub run : List (A ⊎ ℕ) → Pool T → Option (Pool T)
  unfolding get release
  run [] p = some p
  run (inr i ∷ ops) p = run ops (release i p)
  run (inl args ∷ ops) p = elim (get make initialize 2 args p) [
    | got i p' ↦ run ops p'
    | assertion_fails ↦ none
    | endless ↦ none
  ]

  abbrev pub gets : List (A ⊎ ℕ) → ℕ
  gets [] = 0
  gets (inr i ∷ ops) = gets ops
  gets (inl args ∷ ops) = suc (gets ops)

  run_counts :
      (ops : List (A ⊎ ℕ)) (p : Pool T)
      → IsValid p
      → 0 < p.refill_size
      → p.refill_size < 2 ^ 64
      → (p' : Pool T) × (run ops p ≡ some p')
        × IsValid p'
        × (given_out p'.entries ≡ given_out p.entries + gets ops)
  unfolding run release
  run_counts [] p valid some_new fits = (p, refl, valid, omega arith)
  run_counts (inr i ∷ ops) p valid some_new fits =
      let (f, g, n) = counts-release_at i p.entries in
      let (p', ran, valid', counted) =
        run_counts ops (release i p) (f ∙ valid.0, valid.1) some_new fits in
      (p', ran, valid', omega (arith, counted, n))
  run_counts (inl args ∷ ops) p valid some_new fits =
      let (i, q, given, was_free, valid', counted, kept) = get-got args p valid some_new fits in
      let (p', ran, valid'', total) = run_counts ops q valid' (rw kept some_new) (rw kept fits) in
      (p', rw (run, given) ran, valid'', omega (arith, total, counted))

  -- From a new pool with a refill size of at least one, any sequence of calls of `get` and of
  -- dropped pointers goes through; the count of available objects is that of the free ones. As
  -- many objects are not free, dropped or not, as `get` was called, and the vector holds at
  -- least so many.
  pub run-new_pool :
      (ops : List (A ⊎ ℕ)) (initial_pool_size a_refill_size : ℕ) (args : A)
      → initial_pool_size < 2 ^ 64
      → 0 < a_refill_size
      → a_refill_size < 2 ^ 64
      → (p : Pool T) × (run ops (new_pool make initialize initial_pool_size a_refill_size args)
          ≡ some p)
        × (free p.entries ≡ p.available_count)
        × (given_out p.entries ≡ gets ops)
        × (gets ops ≤ length p.entries)
  unfolding new_pool
  run-new_pool ops n r args small some_new fits =
      let (all_free, none_out) = counts-replicate make initialize n args in
      let (p, ran, valid, counted) =
        run_counts ops (new_pool make initialize n r args) (all_free, small) some_new fits in
      let no_more : 0 + gets ops ≡ gets ops = omega arith in
      let total : given_out p.entries ≡ gets ops =
        counted ∙ ap (λ k. k + gets ops) none_out ∙ no_more in
      (p, ran, valid.0, total, omega (arith, total, given_out-le p.entries))

  -- Where nothing is free and a refill adds nothing, `get` calls itself for ever.
  pub get_endless :
      (fuel : ℕ) (args : A) (p : Pool T)
      → IsValid p
      → free p.entries ≡ 0
      → p.refill_size ≡ 0
      → get make initialize fuel args p ≡ endless
  get_endless zero args p valid full none_new = unfold get in refl
  get_endless (suc fuel) args p valid full none_new =
      let empty : p.available_count ≡ 0 = sym valid.0 ∙ full in
      let (valid', many, same) = counts-add args p valid empty (omega arith) in
      elim (Option-cases (take_free make initialize args p.entries)) [
        | inl nothing ↦
            get_again fuel args p nothing empty
            ∙ get_endless fuel args (add make initialize p.refill_size args p) valid'
                (many ∙ none_new) (unfold add in none_new)
        | inr ((i, es), found) ↦
            absurd
              (omega (arith, full, (take_free-some make initialize args p.entries i es found).0))
      ]

  -- A reset pool is a new one, whatever was given out before.
  pub reset-new_pool :
      (initial_pool_size a_refill_size : ℕ) (args : A) (p : Pool T)
      → reset make initialize initial_pool_size a_refill_size args p
        ≡ new_pool make initialize initial_pool_size a_refill_size args
  unfolding reset new_pool
  reset-new_pool initial_pool_size a_refill_size args p = refl
