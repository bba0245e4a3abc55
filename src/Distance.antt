-- ===== src/Distance.antt =====
-- cpp/src/distance.hpp: the distance of two strings by insertions, deletions, substitutions and
-- transpositions of neighbours, on three rows, and the element of a container that is nearest to
-- a string. Characters are bytes.
pub mod Reference
pub mod Rows
pub mod Nearest
mod Examples
use pensar.Base.{
  ℕ, zero, suc, ◌+◌, ◌-◌, ◌≤◌, Bool, ◌&&◌, List, [], ◌∷◌, ltb, ◌==◌, if◌then◌else◌, length, get_or,
  set, replicate, min,
}
use pensar.Base.Outcome.{Outcome, done, throws, invalid_argument}

module _ (source target : List ℕ) where
  -- The body of the inner loop: the new `row3[j]`, from the rows so far.
  pub cell : List ℕ → List ℕ → List ℕ → ℕ → ℕ → ℕ
  cell row1 row2 row3 i j =
      let s_i = get_or source (i - 1) 0 in
      let t_j = get_or target (j - 1) 0 in
      let cost = if s_i == t_j then 0 else 1 in
      let best =
        min (min (get_or row3 (j - 1) 0 + 1) (get_or row2 j 0 + 1))
          (get_or row2 (j - 1) 0 + cost) in
      let transposed =
        ltb 1 i
        && (ltb 1 j && (s_i == get_or target (j - 2) 0 && t_j == get_or source (i - 2) 0)) in
      if transposed then min best (get_or row1 (j - 2) 0 + 1) else best

  -- The inner loop, with the number of columns left.
  pub row_loop : ℕ → List ℕ → List ℕ → List ℕ → ℕ → ℕ → List ℕ
  unfolding cell
  row_loop zero row1 row2 row3 i j = row3
  row_loop (suc left) row1 row2 row3 i j =
      row_loop left row1 row2 (set row3 j (cell row1 row2 row3 i j)) i (suc j)

  -- The outer loop, with the number of rows left; the rows rotate at the end of a round.
  pub rows_loop : ℕ → List ℕ → List ℕ → List ℕ → ℕ → List ℕ
  unfolding row_loop
  rows_loop zero row1 row2 row3 i = row2
  rows_loop (suc left) row1 row2 row3 i =
      let filled = row_loop (length target) row1 row2 (set row3 0 i) i 1 in
      rows_loop left row2 filled filled (suc i)

  -- `row2[j] = j`, from a column on.
  pub first_row : ℕ → ℕ → List ℕ
  first_row j zero = []
  first_row j (suc left) = j ∷ first_row (suc j) left

  pub distance : ℕ
  unfolding rows_loop first_row
  distance =
      let n = length source in
      let m = length target in
      let row2 = rows_loop n (replicate (m + 1) 0) (first_row 0 (m + 1)) (replicate (m + 1) 0) 1 in
      if n == 0 then m else if m == 0 then n else get_or row2 m 0

-- The same loops, on the code points that ICU finds in the two strings.
pub icu_distance : (List ℕ → List ℕ) → List ℕ → List ℕ → ℕ
unfolding distance
icu_distance to_codepoints source target = distance (to_codepoints source) (to_codepoints target)

-- The loop of `min_distance`, with the nearest so far.
pub min_loop : List ℕ → List ℕ → ℕ → List (List ℕ) → List ℕ
unfolding distance
min_loop s min min_dist [] = min
min_loop s min min_dist (it ∷ c) =
    let dist = distance it s in
    let closer = ltb dist min_dist in
    min_loop s (if closer then it else min) (if closer then dist else min_dist) c

pub min_distance : List ℕ → List (List ℕ) → Outcome (List ℕ)
unfolding min_loop distance
min_distance s [] = throws invalid_argument
min_distance s (first ∷ c) = done (min_loop s first (distance first s) (first ∷ c))
