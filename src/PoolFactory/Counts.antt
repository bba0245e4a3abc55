-- ===== src/PoolFactory/Counts.antt =====
-- The objects of a pool that are free, and those given out.
use pensar.Base.{
  ℕ, zero, suc, ◌+◌, ◌^◌, ◌≤◌, ◌<◌, ◌≡◌, refl, none, some, List, [], ◌∷◌, ◌++◌, ltb, if◌then◌else◌,
  length, replicate, arith, Option-cases, inl, inr,
}
use pensar.PoolFactory.{Entry, Pool, new_entry, take_free, release_at}

module _ {κ} {T : Type κ} where
  abbrev pub free : List (Entry T) → ℕ
  free [] = 0
  free (e ∷ es) = if ltb e.use_count 2 then suc (free es) else free es

  abbrev pub given_out : List (Entry T) → ℕ
  given_out [] = 0
  given_out (e ∷ es) = if ltb e.use_count 2 then given_out es else suc (given_out es)

  -- Object `i` is free, or there is none of that index yet.
  abbrev pub IsFree : ℕ → List (Entry T) → Type 0
  IsFree i [] = Unit
  IsFree zero (e ∷ es) = e.use_count < 2
  IsFree (suc i) (e ∷ es) = IsFree i es

  -- What the pool counts as available is what is free, and fits into a `size_t`.
  abbrev pub IsValid : Pool T → Type 0
  IsValid p = (free p.entries ≡ p.available_count) × (p.available_count < 2 ^ 64)

  pub free-append : (es fs : List (Entry T)) → free (es ++ fs) ≡ free es + free fs
  free-append [] fs = omega arith
  free-append (e ∷ es) fs = ground (arith, free-append es fs)

  pub given_out-append :
      (es fs : List (Entry T)) → given_out (es ++ fs) ≡ given_out es + given_out fs
  given_out-append [] fs = omega arith
  given_out-append (e ∷ es) fs = ground (arith, given_out-append es fs)

  pub IsFree-append : (i : ℕ) (es fs : List (Entry T)) → IsFree i (es ++ fs) → IsFree i es
  IsFree-append i [] fs h = tt
  IsFree-append zero (e ∷ es) fs h = h
  IsFree-append (suc i) (e ∷ es) fs h = IsFree-append i es fs h

  pub given_out-le : (es : List (Entry T)) → given_out es ≤ length es
  given_out-le [] = omega arith
  given_out-le (e ∷ es) = ground (arith, given_out-le es)

  pub counts-release_at :
      (i : ℕ) (es : List (Entry T))
      → (free (release_at i es) ≡ free es)
        × (given_out (release_at i es) ≡ given_out es)
        × (length (release_at i es) ≡ length es)
  unfolding release_at
  counts-release_at i [] = (refl, refl, refl)
  counts-release_at zero (e ∷ es) = ground arith
  counts-release_at (suc i) (e ∷ es) = ground (arith, counts-release_at i es)

module _ {ℓ κ} {A : Type ℓ} {T : Type κ} (make : A → T) (initialize : A → T → T) where
  pub counts-replicate :
      (n : ℕ) (args : A)
      → (free (replicate n (new_entry make initialize args)) ≡ n)
        × (given_out (replicate n (new_entry make initialize args)) ≡ 0)
  unfolding new_entry
  counts-replicate zero args = (refl, refl)
  counts-replicate (suc n) args = ground (arith, counts-replicate n args)

  pub take_free-some :
      (args : A) (es : List (Entry T)) (i : ℕ) (fs : List (Entry T))
      → take_free make initialize args es ≡ some (i, fs)
      → (free es ≡ suc (free fs)) × (given_out fs ≡ suc (given_out es)) × IsFree i es
  unfolding take_free
  take_free-some args [] i fs h = cc
  take_free-some args (e ∷ es) i fs h = elim (Option-cases (take_free make initialize args es)) [
    | inl nothing ↦ ground (arith, nothing, rw (take_free, nothing) at h)
    | inr ((j, gs), found) ↦
        ground (arith, found, take_free-some args es j gs found, rw (take_free, found) at h)
  ]

  pub take_free-none :
      (args : A) (es : List (Entry T)) → take_free make initialize args es ≡ none → free es ≡ 0
  unfolding take_free
  take_free-none args [] h = refl
  take_free-none args (e ∷ es) h = elim (Option-cases (take_free make initialize args es)) [
    | inl nothing ↦ ground (arith, take_free-none args es nothing, rw (take_free, nothing) at h)
    | inr (r, found) ↦ absurd (ground (arith, rw (take_free, found) at h))
  ]
