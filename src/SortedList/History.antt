-- ===== src/SortedList/History.antt =====
-- Every list that a history of calls can reach from an empty one is in order, and holds no two
-- equivalent elements if it was made unique.
use pensar.Base.{
  ℕ, Bool, true, false, ◌≡◌, refl, List, [], ◌∷◌, arith, Bool-cases, ◌&&◌, inl, inr, length, ◌==◌,
  ltb,
}
use pensar.Base.Outcome.{Outcome, done, throws}
use pensar.SortedList.{
  SortedList, lower_bound, insert_at, erase_at, hits, add, find, remove, remove_at, clear,
  empty_list, validate_index, size, from_range, add_all,
}
use pensar.SortedList.Order.{IsStrictWeakOrder, IsSorted, IsStrict}
use pensar.SortedList.Laws.{
  insert_at-IsSorted, insert_at-IsStrict, erase_at-IsSorted, erase_at-IsStrict,
}

-- The calls that change the elements.
pub data Call {ℓ} (A : Type ℓ) : Type ℓ where
  adds removes : A → Call A
  removes_at : ℕ → Call A
  clears : Call A

module _ {ℓ} {A : Type ℓ} where
  -- A call that throws leaves the list as it was.
  after : SortedList A → Outcome (SortedList A) → SortedList A
  after l (done l') = l'
  after l (throws e) = l

  pub step : SortedList A → Call A → SortedList A
  unfolding after
  step l (adds v) = (add v l).0
  step l (removes v) = (remove v l).0
  step l (removes_at i) = after l (remove_at i l)
  step l clears = clear l

  pub run : SortedList A → List (Call A) → SortedList A
  run l [] = l
  run l (c ∷ cs) = run (step l c) cs

  -- What the class keeps true: the comparator and the flag are as given, the elements are in
  -- order, and in a unique list no two are equivalent.
  pub record IsValid (unique : Bool) (comp : A → A → Bool) (l : SortedList A) : Type ℓ where
    pub same_comp : l.comp ≡ comp
    pub same_unique : l.unique ≡ unique
    pub in_order : IsSorted comp l.items
    pub strict : unique ≡ true → IsStrict comp l.items

module _ {ℓ} {A : Type ℓ} {comp : A → A → Bool} {unique : Bool}
    (order : IsStrictWeakOrder comp) where
  erase_at-IsValid :
      (l : SortedList A) (i : ℕ)
      → IsValid unique comp l
      → IsValid unique comp (record l { items = erase_at i l.items })
  erase_at-IsValid l i v = record {
    same_comp = v.same_comp;
    same_unique = v.same_unique;
    in_order = erase_at-IsSorted comp i l.items v.in_order;
    strict = λ u. erase_at-IsStrict comp i l.items (v.strict u);
  }

  insert_at-IsValid :
      (l : SortedList A) (a : A)
      → (l.unique && hits l.comp l.items (lower_bound l.comp l.items a) a) ≡ false
      → IsValid unique comp l
      → IsValid unique comp
          (record l { items = insert_at (lower_bound l.comp l.items a) a l.items })
  insert_at-IsValid l a e v = record {
    same_comp = v.same_comp;
    same_unique = v.same_unique;
    in_order = rw v.same_comp (insert_at-IsSorted order a l.items v.in_order);
    strict = λ u.
        rw v.same_comp
          (insert_at-IsStrict order a l.items (ground (arith, v.same_comp)) (v.strict u));
  }

  add-IsValid : (l : SortedList A) (a : A) → IsValid unique comp l → IsValid unique comp (add a l).0
  unfolding add
  add-IsValid l a v =
      elim (Bool-cases (l.unique && hits l.comp l.items (lower_bound l.comp l.items a) a)) [
        | inl dup ↦ rw dup v
        | inr fresh ↦ rw fresh (insert_at-IsValid l a fresh v)
      ]

  remove-IsValid :
      (l : SortedList A) (a : A) → IsValid unique comp l → IsValid unique comp (remove a l).0
  unfolding remove
  remove-IsValid l a v = elim (Bool-cases (find a l == length l.items)) [
    | inl e ↦ rw e v
    | inr e ↦ rw e (erase_at-IsValid l (find a l) v)
  ]

  -- Each call keeps the list valid.
  pub step-IsValid :
      (l : SortedList A) (c : Call A) → IsValid unique comp l → IsValid unique comp (step l c)
  unfolding step remove_at clear validate_index
  step-IsValid l (adds a) v = add-IsValid l a v
  step-IsValid l (removes a) v = remove-IsValid l a v
  step-IsValid l (removes_at i) v = elim (Bool-cases (ltb i (size l))) [
    | inl e ↦ rw e (erase_at-IsValid l i v)
    | inr e ↦ rw e v
  ]
  step-IsValid l clears v = record {
    same_comp = v.same_comp;
    same_unique = v.same_unique;
    in_order = tt;
    strict = λ u. tt;
  }

  run-IsValid :
      (l : SortedList A) (cs : List (Call A))
      → IsValid unique comp l
      → IsValid unique comp (run l cs)
  unfolding run
  run-IsValid l [] v = v
  run-IsValid l (c ∷ cs) v = run-IsValid (step l c) cs (step-IsValid l c v)

  empty_list-IsValid : IsValid unique comp (empty_list unique comp)
  unfolding empty_list
  empty_list-IsValid = record {
    same_comp = refl;
    same_unique = refl;
    in_order = tt;
    strict = λ u. tt;
  }

  add_all-IsValid :
      (xs : List A) (l : SortedList A) → IsValid unique comp l → IsValid unique comp (add_all xs l)
  unfolding add_all
  add_all-IsValid [] l v = v
  add_all-IsValid (x ∷ xs) l v = add_all-IsValid xs (add x l).0 (add-IsValid l x v)

  -- A list built from any range, and then taken through any calls of `add`, `remove`,
  -- `remove_at` and `clear`, is in order, and holds no two equivalent elements if it was built
  -- unique.
  pub run-from_range-IsValid :
      (range : List A) (cs : List (Call A))
      → IsValid unique comp (run (from_range range unique comp) cs)
  unfolding from_range
  run-from_range-IsValid range cs = run-IsValid _ cs (add_all-IsValid range _ empty_list-IsValid)
