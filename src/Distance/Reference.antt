-- ===== src/Distance/Reference.antt =====
-- The distance by recursion over the prefixes of the two strings.
use pensar.Base.{ℕ, zero, suc, ◌+◌, ◌&&◌, Bool, List, ◌==◌, if◌then◌else◌, get_or, min}

module _ (s t : List ℕ) where
  -- The best way to end with an insertion, a deletion, or a match or substitution.
  abbrev pub simple : ℕ → ℕ → ℕ → ℕ → ℕ → ℕ
  simple i j left up diagonal =
      min (min (left + 1) (up + 1)) (diagonal + (if get_or s i 0 == get_or t j 0 then 0 else 1))

  abbrev pub crossed : ℕ → ℕ → Bool
  crossed i j = get_or s (suc i) 0 == get_or t j 0 && get_or t (suc j) 0 == get_or s i 0

  -- The distance of the first `i` characters of the one from the first `j` of the other.
  unfoldable pub edits : ℕ → ℕ → ℕ
  edits zero j = j
  edits (suc i) zero = suc i
  edits (suc zero) (suc j) = simple 0 j (edits (suc zero) j) (suc j) j
  edits (suc (suc i)) (suc zero) = simple (suc i) 0 (suc (suc i)) (edits (suc i) (suc zero)) (suc i)
  edits (suc (suc i)) (suc (suc j)) =
      let best =
        simple (suc i) (suc j) (edits (suc (suc i)) (suc j)) (edits (suc i) (suc (suc j)))
          (edits (suc i) (suc j)) in
      let swapped = edits i j + 1 in if crossed i j then min best swapped else best
