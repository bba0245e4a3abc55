-- ===== src/SortedList/Laws.antt =====
-- `add`, `remove` and `remove_at` keep the order, and change the elements by exactly one.
use mathlib.Core.List.{Perm}
use mathlib.Core.List.Perm
use pensar.Base.{
  ℕ, zero, suc, Bool, true, false, ◌≡◌, inl, inr, List, [], ◌∷◌, arith, Bool-cases, some, get_elem?,
}
use pensar.Base.Predicates.{All, All-map}
use pensar.SortedList.{lower_bound, insert_at, erase_at, hits}
use pensar.SortedList.Order.{IsStrictWeakOrder, IsSorted, IsStrict, comp_asymm, not_below_trans}

module _ {ℓ} {A : Type ℓ} where
  All-insert_at {κ} :
      (P : A → Type κ) (i : ℕ) (v : A) (xs : List A) → All P xs → P v → All P (insert_at i v xs)
  unfolding insert_at
  All-insert_at P i v [] h p = (p, tt)
  All-insert_at P zero v (x ∷ xs) h p = (p, h)
  All-insert_at P (suc i) v (x ∷ xs) h p = (h.0, All-insert_at P i v xs h.1 p)

  All-erase_at {κ} : (P : A → Type κ) (i : ℕ) (xs : List A) → All P xs → All P (erase_at i xs)
  unfolding erase_at
  All-erase_at P i [] h = tt
  All-erase_at P zero (x ∷ xs) h = h.1
  All-erase_at P (suc i) (x ∷ xs) h = (h.0, All-erase_at P i xs h.1)

  pub insert_at-perm : (i : ℕ) (v : A) (xs : List A) → Perm (insert_at i v xs) (v ∷ xs)
  unfolding insert_at
  insert_at-perm i v [] = Perm.refl (v ∷ [])
  insert_at-perm zero v (x ∷ xs) = Perm.refl (v ∷ x ∷ xs)
  insert_at-perm (suc i) v (x ∷ xs) =
      Perm.trans (Perm.cons x (insert_at-perm i v xs)) (Perm.swap v x xs)

  pub erase_at-perm :
      (i : ℕ) (x : A) (xs : List A) → get_elem? xs i ≡ some x → Perm xs (x ∷ erase_at i xs)
  unfolding erase_at
  erase_at-perm i x [] e = cc
  erase_at-perm zero x (y ∷ xs) e = Perm.cons' (ground arith) Perm.rfl
  erase_at-perm (suc i) x (y ∷ xs) e =
      Perm.trans (Perm.cons y (erase_at-perm i x xs e)) (Perm.swap x y (erase_at i xs))

  pub erase_at-IsSorted :
      (comp : A → A → Bool) (i : ℕ) (xs : List A) → IsSorted comp xs → IsSorted comp (erase_at i xs)
  unfolding erase_at
  erase_at-IsSorted comp i [] h = tt
  erase_at-IsSorted comp zero (x ∷ xs) h = h.1
  erase_at-IsSorted comp (suc i) (x ∷ xs) h =
      (All-erase_at _ i xs h.0, erase_at-IsSorted comp i xs h.1)

  pub erase_at-IsStrict :
      (comp : A → A → Bool) (i : ℕ) (xs : List A) → IsStrict comp xs → IsStrict comp (erase_at i xs)
  unfolding erase_at
  erase_at-IsStrict comp i [] h = tt
  erase_at-IsStrict comp zero (x ∷ xs) h = h.1
  erase_at-IsStrict comp (suc i) (x ∷ xs) h =
      (All-erase_at _ i xs h.0, erase_at-IsStrict comp i xs h.1)

module _ {ℓ} {A : Type ℓ} {comp : A → A → Bool} (order : IsStrictWeakOrder comp) where
  pub insert_at-IsSorted :
      (v : A) (xs : List A)
      → IsSorted comp xs
      → IsSorted comp (insert_at (lower_bound comp xs v) v xs)
  unfolding insert_at lower_bound
  insert_at-IsSorted v [] h = (tt, tt)
  insert_at-IsSorted v (x ∷ xs) h = elim (Bool-cases (comp x v)) [
    | inl below ↦ rw below (
      All-insert_at _ (lower_bound comp xs v) v xs h.0 (comp_asymm order x v below),
      insert_at-IsSorted v xs h.1,
    )
    | inr not_below ↦
        rw not_below
          ((not_below, All-map _ _ xs (λ y k. not_below_trans order x y v k not_below) h.0), h)
  ]

  -- Without a hit at the lower bound, a strict list stays strict.
  pub insert_at-IsStrict :
      (v : A) (xs : List A)
      → hits comp xs (lower_bound comp xs v) v ≡ false
      → IsStrict comp xs
      → IsStrict comp (insert_at (lower_bound comp xs v) v xs)
  unfolding insert_at lower_bound hits
  insert_at-IsStrict v [] e h = (tt, tt)
  insert_at-IsStrict v (x ∷ xs) e h = elim (Bool-cases (comp x v)) [
    | inl below ↦ rw below (
      All-insert_at _ (lower_bound comp xs v) v xs h.0 below,
      insert_at-IsStrict v xs (rw below at e) h.1,
    )
    | inr not_below ↦
        let above : comp v x ≡ true = ground arith in
        rw not_below ((above, All-map _ _ xs (λ y k. order.trans v x y above k) h.0), h)
  ]
