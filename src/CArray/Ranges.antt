-- ===== src/CArray/Ranges.antt =====
-- Ranges that are compared, and elements that are found.
use pensar.Base.{
  ℕ, zero, suc, ◌+◌, ◌%◌, ◌^◌, ◌<◌, ◌≡◌, false, ◌&&◌, none, some, List, [], ◌∷◌, leb, ◌==◌, length,
  get_or, take, drop, arith, Option-cases, inl, inr,
}
use pensar.Base.Outcome.{done}
use pensar.Base.Predicates.{All}
use pensar.CArray.{at, same_elements, compare_range_from, contains}

-- Two ranges whose end does not wrap are compared within the arrays: they are equal exactly when
-- the range is inside and its elements are the same.
pub compare_range_from_inside :
    (array other : List ℕ) (start count : ℕ)
    → start < length array
    → start + count < 2 ^ 64
    → compare_range_from array other start count
      ≡ some (
          leb (start + count) (length array)
          && same_elements (take count (drop start array)) (take count (drop start other)))
unfolding compare_range_from
compare_range_from_inside array other start count inside small =
    let same : (start + count) % 2 ^ 64 ≡ start + count = omega arith in
    rw (compare_range_from, same) (ground arith)

-- Where the sum of start and count wraps to 0, the test lets the range through, and the
-- comparison leaves the array.
pub compare_range_from_outside :
    (array other : List ℕ) (start count : ℕ)
    → start < length array
    → length array < 2 ^ 64
    → start + count ≡ 2 ^ 64
    → compare_range_from array other start count ≡ none
unfolding compare_range_from
compare_range_from_outside array other start count inside small whole =
    let wraps : (start + count) % 2 ^ 64 ≡ 0 = omega arith in
    rw (compare_range_from, wraps) (ground arith)

contains-some :
    (array : List ℕ) (element i : ℕ)
    → contains array element ≡ some i
    → (i < length array)
      × (get_or array i 0 ≡ element)
      × All (λ x. (x == element) ≡ false) (take i array)
unfolding contains
contains-some [] element i h = cc
contains-some (x ∷ xs) element zero h = elim (Option-cases (contains xs element)) [
  | inl nothing ↦ ground (arith, rw (contains, nothing) at h)
  | inr (j, found) ↦ ground (arith, rw (contains, found) at h)
]
contains-some (x ∷ xs) element (suc i) h = elim (Option-cases (contains xs element)) [
  | inl nothing ↦ absurd (ground (arith, rw (contains, nothing) at h))
  | inr (j, found) ↦ ground (arith, contains-some xs element i, found, rw (contains, found) at h)
]

-- An index that `contains` gives is inside the array, `at` returns the element there, and none
-- of the elements before it is equal to it.
pub at-contains :
    (array : List ℕ) (element i : ℕ)
    → contains array element ≡ some i
    → (at array i ≡ done element) × All (λ x. (x == element) ≡ false) (take i array)
unfolding at
at-contains array element i h =
    let (inside, here, before) = contains-some array element i h in (ground (arith, here), before)
