-- ===== src/SortedList/Examples.antt =====
-- Runs of `SortedList` on numbers, and its theorems at concrete lists.
use mathlib.Core.List.{Perm}
use pensar.Base.{ℕ, true, false, ◌≡◌, refl, ◌⊎◌, [], ◌∷◌, arith, ltb, ◌&&◌, ◌+◌}
use pensar.Base.Outcome.{done, throws, out_of_range}
use pensar.SortedList.{SortedList, from_range, add, at, last, contains, to_s}
use pensar.SortedList.Order.{IsStrictWeakOrder}
use pensar.SortedList.Search.{any_equiv, contains-any_equiv, add-perm}
use pensar.SortedList.History.{adds, removes, removes_at, run, IsValid, run-from_range-IsValid}

ltb-IsStrictWeakOrder : IsStrictWeakOrder ltb
ltb-IsStrictWeakOrder = record {
  irrefl = λ a. ground arith;
  trans = λ a b c h k. ground arith;
  cotrans = λ a b c h. ground arith;
}

abbrev evens : SortedList ℕ
evens = record { items = 2 ∷ 4 ∷ 6 ∷ []; unique = true; comp = ltb }

sorted_on_insertion : (from_range (3 ∷ 1 ∷ 2 ∷ 1 ∷ []) true ltb).items ≡ 1 ∷ 2 ∷ 3 ∷ []
unfolding from_range add
sorted_on_insertion = refl

reads :
    (at 1 evens ≡ done 4)
    × (at 3 evens ≡ throws out_of_range)
    × (last evens ≡ done 6)
    × (to_s (λ d. (d + 48) ∷ []) evens
        ≡ b'[' ∷ b'2' ∷ b',' ∷ b' ' ∷ b'4' ∷ b',' ∷ b' ' ∷ b'6' ∷ b']' ∷ [])
unfolding at last to_s
reads = (refl, refl, refl, refl)

contains-any_equiv_example : contains 4 evens ≡ any_equiv ltb (2 ∷ 4 ∷ 6 ∷ []) 4
contains-any_equiv_example = contains-any_equiv 4 evens ltb-IsStrictWeakOrder (ground arith)

add-perm_example :
    (((add 5 evens).1 ≡ false)
      × ((add 5 evens).0 ≡ evens)
      × (evens.unique ≡ true)
      × (any_equiv ltb evens.items 5 ≡ true))
    ⊎ (((add 5 evens).1 ≡ true)
        × Perm (add 5 evens).0.items (5 ∷ evens.items)
        × ((evens.unique && any_equiv ltb evens.items 5) ≡ false))
add-perm_example = add-perm 5 evens ltb-IsStrictWeakOrder (ground arith)

run-from_range-IsValid_example :
    IsValid true ltb
      (run (from_range (5 ∷ 1 ∷ 5 ∷ []) true ltb) (adds 3 ∷ removes 1 ∷ removes_at 9 ∷ []))
run-from_range-IsValid_example =
    run-from_range-IsValid ltb-IsStrictWeakOrder (5 ∷ 1 ∷ 5 ∷ [])
      (adds 3 ∷ removes 1 ∷ removes_at 9 ∷ [])
