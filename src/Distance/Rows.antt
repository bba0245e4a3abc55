-- ===== src/Distance/Rows.antt =====
-- The three rows hold the distances of prefixes.
use pensar.Base.{
  ℕ, zero, suc, ◌+◌, ◌-◌, ◌≤◌, ◌<◌, ◌≡◌, ◌≢◌, refl, ap, sym, ◌∙◌, true, List, [], ◌∷◌, ltb, ◌==◌,
  length, get_or, set, replicate, arith, Bool-cases, inl, inr, length-set, length-replicate,
}
use pensar.Distance.{cell, row_loop, rows_loop, first_row, distance}
use pensar.Distance.Reference.{edits}

get_or-set_self : (xs : List ℕ) (i v : ℕ) → i < length xs → get_or (set xs i v) i 0 ≡ v
get_or-set_self [] i v h = absurd (omega arith)
get_or-set_self (x ∷ xs) zero v h = refl
get_or-set_self (x ∷ xs) (suc i) v h = get_or-set_self xs i v (omega arith)

get_or-set_ne : (xs : List ℕ) (i j v : ℕ) → i ≢ j → get_or (set xs i v) j 0 ≡ get_or xs j 0
get_or-set_ne [] i j v h = refl
get_or-set_ne (x ∷ xs) zero zero v h = absurd (h refl)
get_or-set_ne (x ∷ xs) zero (suc j) v h = refl
get_or-set_ne (x ∷ xs) (suc i) zero v h = refl
get_or-set_ne (x ∷ xs) (suc i) (suc j) v h = get_or-set_ne xs i j v (λ e. h (ap suc e))

module _ (s t : List ℕ) where
  -- A row holds the distances of the first `i` characters up to column `last`.
  abbrev HoldsTo : ℕ → ℕ → List ℕ → Type 0
  HoldsTo i last row = (j : ℕ) → j ≤ last → get_or row j 0 ≡ edits s t i j

  edits-zero : (i : ℕ) → edits s t i 0 ≡ i
  unfolding edits
  edits-zero zero = refl
  edits-zero (suc i) = refl

  cell-first :
      (row1 row2 row3 : List ℕ) (j : ℕ)
      → get_or row3 j 0 ≡ edits s t 1 j
      → get_or row2 (suc j) 0 ≡ edits s t 0 (suc j)
      → get_or row2 j 0 ≡ edits s t 0 j
      → cell s t row1 row2 row3 1 (suc j) ≡ edits s t 1 (suc j)
  unfolding cell edits
  cell-first row1 row2 row3 j left up diagonal =
      let back : suc j - 1 ≡ j = omega arith in rw (back, left, up, diagonal) refl

  cell-second :
      (row1 row2 row3 : List ℕ) (i : ℕ)
      → get_or row3 0 0 ≡ edits s t (suc (suc i)) 0
      → get_or row2 1 0 ≡ edits s t (suc i) 1
      → get_or row2 0 0 ≡ edits s t (suc i) 0
      → cell s t row1 row2 row3 (suc (suc i)) 1 ≡ edits s t (suc (suc i)) 1
  unfolding cell edits
  cell-second row1 row2 row3 i left up diagonal =
      let back : suc (suc i) - 1 ≡ suc i = omega arith in
      rw (back, left, up, diagonal) (ground arith)

  cell-rest :
      (row1 row2 row3 : List ℕ) (i j : ℕ)
      → get_or row3 (suc j) 0 ≡ edits s t (suc (suc i)) (suc j)
      → get_or row2 (suc (suc j)) 0 ≡ edits s t (suc i) (suc (suc j))
      → get_or row2 (suc j) 0 ≡ edits s t (suc i) (suc j)
      → get_or row1 j 0 ≡ edits s t i j
      → cell s t row1 row2 row3 (suc (suc i)) (suc (suc j)) ≡ edits s t (suc (suc i)) (suc (suc j))
  unfolding cell
  cell-rest row1 row2 row3 i j left up diagonal corner =
      let deep : ltb 1 (suc (suc i)) ≡ true = ground arith in
      let deep' : ltb 1 (suc (suc j)) ≡ true = ground arith in
      let back : suc (suc i) - 1 ≡ suc i = omega arith in
      let back' : suc (suc j) - 1 ≡ suc j = omega arith in
      let back_two : suc (suc i) - 2 ≡ i = omega arith in
      let back_two' : suc (suc j) - 2 ≡ j = omega arith in
      rw (cell, back, back', back_two, back_two', left, up, diagonal, corner, deep, deep')
        (unfold edits in refl)

  -- The rows before row `i`: the last, and from the second on the one before.
  abbrev Before : ℕ → List ℕ → List ℕ → Type 0
  Before zero row1 row2 = Unit
  Before (suc zero) row1 row2 = HoldsTo 0 (length t) row2
  Before (suc (suc i)) row1 row2 = HoldsTo (suc i) (length t) row2 × HoldsTo i (length t) row1

  cell-edits :
      (row1 row2 row3 : List ℕ) (i j : ℕ)
      → Before (suc i) row1 row2
      → HoldsTo (suc i) j row3
      → j < length t
      → cell s t row1 row2 row3 (suc i) (suc j) ≡ edits s t (suc i) (suc j)
  cell-edits row1 row2 row3 zero j before left h =
      cell-first row1 row2 row3 j (left j (omega arith)) (before (suc j) h) (before j (omega arith))
  cell-edits row1 row2 row3 (suc i) zero before left h =
      cell-second row1 row2 row3 i (left 0 (omega arith)) (before.0 1 h) (before.0 0 (omega arith))
  cell-edits row1 row2 row3 (suc i) (suc j) before left h =
      cell-rest row1 row2 row3 i j (left (suc j) (omega arith)) (before.0 (suc (suc j)) h)
        (before.0 (suc j) (omega arith)) (before.1 j (omega arith))

  -- The inner loop fills the row from column `j` on.
  row_loop-HoldsTo :
      (left : ℕ) (row1 row2 row3 : List ℕ) (i j : ℕ)
      → Before (suc i) row1 row2
      → HoldsTo (suc i) j row3
      → left + j ≡ length t
      → length row3 ≡ suc (length t)
      → HoldsTo (suc i) (length t) (row_loop s t left row1 row2 row3 (suc i) (suc j))
        × (length (row_loop s t left row1 row2 row3 (suc i) (suc j)) ≡ suc (length t))
  unfolding row_loop
  row_loop-HoldsTo zero row1 row2 row3 i j before done_so_far total size =
      (λ k h. done_so_far k (omega arith), size)
  row_loop-HoldsTo (suc left) row1 row2 row3 i j before done_so_far total size =
      let new = cell s t row1 row2 row3 (suc i) (suc j) in
      row_loop-HoldsTo left row1 row2 (set row3 (suc j) new) i (suc j) before
        (λ k h. elim (Bool-cases (k == suc j)) [
          | inl here ↦
              let e : k ≡ suc j = ground arith in
              ap (λ q. get_or (set row3 (suc j) new) q 0) e
              ∙ get_or-set_self row3 (suc j) new (omega arith)
              ∙ cell-edits row1 row2 row3 i j before done_so_far (omega arith)
              ∙ ap (edits s t (suc i)) (sym e)
          | inr other ↦
              get_or-set_ne row3 (suc j) k new (ground arith) ∙ done_so_far k (ground arith)
        ])
        (omega arith) (length-set row3 (suc j) new ∙ size)

  Before-last : (i : ℕ) (row1 row2 : List ℕ) → Before (suc i) row1 row2 → HoldsTo i (length t) row2
  Before-last zero row1 row2 before = before
  Before-last (suc i) row1 row2 before = before.0

  first_column : (i : ℕ) (row3 : List ℕ) → 0 < length row3 → HoldsTo (suc i) 0 (set row3 0 (suc i))
  first_column i row3 some_room zero h =
      get_or-set_self row3 0 (suc i) some_room ∙ sym (edits-zero (suc i))
  first_column i row3 some_room (suc j) h = absurd (omega arith)

  -- The outer loop ends with the row of the last prefix.
  rows_loop-HoldsTo :
      (left : ℕ) (row1 row2 row3 : List ℕ) (i : ℕ)
      → Before (suc i) row1 row2
      → length row3 ≡ suc (length t)
      → HoldsTo (i + left) (length t) (rows_loop s t left row1 row2 row3 (suc i))
  unfolding rows_loop
  rows_loop-HoldsTo zero row1 row2 row3 i before size =
      let same : i ≡ i + 0 = omega arith in
      λ k h. Before-last i row1 row2 before k h ∙ ap (λ q. edits s t q k) same
  rows_loop-HoldsTo (suc left) row1 row2 row3 i before size =
      let filled = row_loop s t (length t) row1 row2 (set row3 0 (suc i)) (suc i) 1 in
      let (holds, wide) =
        row_loop-HoldsTo (length t) row1 row2 (set row3 0 (suc i)) i 0 before
          (first_column i row3 (omega arith)) (omega arith) (length-set row3 0 (suc i) ∙ size) in
      let next : suc i + left ≡ i + suc left = omega arith in
      λ k h.
        rows_loop-HoldsTo left row2 filled filled (suc i) (holds, Before-last i row1 row2 before)
          wide k h
        ∙ ap (λ q. edits s t q k) next

  get_or-first_row : (j left k : ℕ) → k < left → get_or (first_row s t j left) k 0 ≡ j + k
  unfolding first_row
  get_or-first_row j zero k h = absurd (omega arith)
  get_or-first_row j (suc left) zero h = omega arith
  get_or-first_row j (suc left) (suc k) h =
      omega (arith, get_or-first_row (suc j) left k (omega arith))

  -- The distance on three rows is the one by recursion over prefixes.
  pub distance-edits : distance s t ≡ edits s t (length s) (length t)
  unfolding distance edits
  distance-edits =
      let m = length t in
      let empty_row : List ℕ = replicate (m + 1) 0 in
      let one_more : length empty_row ≡ suc m =
        length-replicate {A = ℕ} (m + 1) 0 ∙ (omega arith) in
      let all_rows : 0 + length s ≡ length s = omega arith in
      let last : get_or (rows_loop s t (length s) empty_row (first_row s t 0 (m + 1)) empty_row 1) m
            0
          ≡ edits s t (length s) m =
        rows_loop-HoldsTo (length s) empty_row (first_row s t 0 (m + 1)) empty_row 0
          (λ j h. get_or-first_row 0 (m + 1) j (omega arith) ∙ (omega arith)) one_more m
          (omega arith)
        ∙ ap (λ q. edits s t q m) all_rows in
      elim (Bool-cases (length s == 0)) [
        | inl e ↦
            let none_left : length s ≡ 0 = ground arith in
            rw (distance, e) (sym (ap (λ q. edits s t q m) none_left))
        | inr e ↦ elim (Bool-cases (length t == 0)) [
          | inl f ↦
              let none_right : length t ≡ 0 = ground arith in
              rw (distance, e, f)
                (sym (ap (edits s t (length s)) none_right ∙ edits-zero (length s)))
          | inr f ↦ rw (distance, e, f) last
        ]
      ]
