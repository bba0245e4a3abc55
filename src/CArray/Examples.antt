-- ===== src/CArray/Examples.antt =====
-- Runs of `CArray`, and its theorems at concrete arrays.
use pensar.Base.{ℕ, ◌≡◌, refl, false, some, List, [], ◌∷◌}
use pensar.CArray.{of_list, fill, compare_range}

abbrev bytes : List ℕ
bytes = 4 ∷ 7 ∷ 9 ∷ []

abbrev others : List ℕ
others = 5 ∷ 7 ∷ 9 ∷ []

filled : fill (of_list 4 (1 ∷ 2 ∷ [])) 6 1 ≡ 6 ∷ 2 ∷ 0 ∷ 0 ∷ []
unfolding fill of_list
filled = refl

first_differs : compare_range bytes others 9 ≡ some false
unfolding compare_range
first_differs = refl
