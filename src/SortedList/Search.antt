-- ===== src/SortedList/Search.antt =====
-- `find` and `contains` against a linear search, and what `add` and `remove` do to the elements.
use mathlib.Core.List.{Perm}
use pensar.Base.{
  ℕ, zero, suc, Bool, true, false, ◌≡◌, refl, ◌⊎◌, inl, inr, List, [], ◌∷◌, arith, length, ◌==◌,
  Bool-cases, ◌&&◌, ◌||◌, not, some, get_elem?, ◌<◌,
}
use pensar.Base.Predicates.{All}
use pensar.SortedList.{SortedList, lower_bound, hits, add, find, remove, contains}
use pensar.SortedList.Order.{IsStrictWeakOrder, IsSorted, below_trans}
use pensar.SortedList.Laws.{insert_at-perm, erase_at-perm}

module _ {ℓ} {A : Type ℓ} where
  -- Neither compares below the other.
  pub equiv : (A → A → Bool) → A → A → Bool
  equiv comp a b = not (comp a b) && not (comp b a)

  -- A search that looks at every element.
  pub any_equiv : (A → A → Bool) → List A → A → Bool
  any_equiv comp [] v = false
  any_equiv comp (x ∷ xs) v = equiv comp x v || any_equiv comp xs v

  hits-lt :
      (comp : A → A → Bool) (xs : List A) (i : ℕ) (v : A)
      → hits comp xs i v ≡ true
      → (i < length xs) × ((x : A) × (get_elem? xs i ≡ some x) × (equiv comp x v ≡ true))
  unfolding hits equiv
  hits-lt comp [] i v h = cc
  hits-lt comp (x ∷ xs) zero v h = (omega arith, (x, refl, h))
  hits-lt comp (x ∷ xs) (suc i) v h = let r = hits-lt comp xs i v h in (omega (arith, r.0), r.1)

module _ {ℓ} {A : Type ℓ} {comp : A → A → Bool} (order : IsStrictWeakOrder comp) where
  -- Above an element that is above `v`, nothing is equivalent to `v`.
  none_above :
      (x v : A) (xs : List A)
      → All (λ y. comp y x ≡ false) xs
      → comp v x ≡ true
      → any_equiv comp xs v ≡ false
  unfolding any_equiv equiv
  none_above x v [] h above = refl
  none_above x v (y ∷ ys) h above =
      ground (arith, below_trans order x y v h.0 above, none_above x v ys h.1 above)

  hits-any_equiv :
      (xs : List A) (v : A)
      → IsSorted comp xs
      → hits comp xs (lower_bound comp xs v) v ≡ any_equiv comp xs v
  unfolding hits any_equiv equiv lower_bound
  hits-any_equiv [] v h = refl
  hits-any_equiv (x ∷ xs) v h = elim (Bool-cases (comp x v)) [
    | inl below ↦ rw below (hits-any_equiv xs v h.1)
    | inr not_below ↦ elim (Bool-cases (comp v x)) [
      | inl above ↦ rw (not_below, above) (ground (arith, none_above x v xs h.0 above))
      | inr not_above ↦ ground arith
    ]
  ]

module _ {ℓ} {A : Type ℓ} (v : A) (l : SortedList A) (order : IsStrictWeakOrder l.comp)
    (sorted : IsSorted l.comp l.items) where
  -- On a sorted list the binary search finds an equivalent element exactly when a search that
  -- looks at every element does.
  pub contains-any_equiv : contains v l ≡ any_equiv l.comp l.items v
  unfolding contains find
  contains-any_equiv = ground (
    arith,
    hits-any_equiv order l.items v sorted,
    hits-lt l.comp l.items (lower_bound l.comp l.items v) v,
  )

  -- `add` on a sorted list refuses a value exactly when the list is unique and holds an
  -- equivalent one, and then changes nothing; otherwise the elements are the old ones and the
  -- new one.
  pub add-perm :
      (((add v l).1 ≡ false)
        × ((add v l).0 ≡ l)
        × (l.unique ≡ true)
        × (any_equiv l.comp l.items v ≡ true))
      ⊎ (((add v l).1 ≡ true)
          × Perm (add v l).0.items (v ∷ l.items)
          × ((l.unique && any_equiv l.comp l.items v) ≡ false))
  unfolding add
  add-perm = elim (Bool-cases (l.unique && hits l.comp l.items (lower_bound l.comp l.items v) v)) [
    | inl dup ↦ inl (
      ground arith,
      ground arith,
      ground arith,
      ground (arith, hits-any_equiv order l.items v sorted),
    )
    | inr fresh ↦ inr (
      rw fresh,
      rw fresh (insert_at-perm _ v l.items),
      ground (arith, hits-any_equiv order l.items v sorted),
    )
  ]

  -- `remove` on a sorted list takes out exactly one element, which is equivalent to the value,
  -- and reports it; where there is none it reports that, and changes nothing.
  pub remove-perm :
      (((remove v l).1 ≡ false) × ((remove v l).0 ≡ l) × (any_equiv l.comp l.items v ≡ false))
      ⊎ ((x : A) × ((remove v l).1 ≡ true)
          × (equiv l.comp x v ≡ true)
          × Perm l.items (x ∷ (remove v l).0.items))
  unfolding remove find
  remove-perm =
      let it : ℕ = lower_bound l.comp l.items v in
      let searched = hits-any_equiv order l.items v sorted in
      elim (Bool-cases (hits l.comp l.items it v)) [
        | inl hit ↦
            let found = hits-lt l.comp l.items it v hit in
            let other : (it == length l.items) ≡ false = ground arith in
            inr (
              found.1.0,
              rw (hit, other),
              found.1.2,
              rw (hit, other) (erase_at-perm it found.1.0 l.items found.1.1),
            )
        | inr miss ↦ inl (ground arith, ground arith, ground arith)
      ]
