-- ===== src/Text/Grouping.antt =====
-- `insert_grouping_char`: the grouping characters stand where a multiple of three characters is
-- left.
use pensar.Base.{
  ℕ, suc, ◌+◌, ◌-◌, ◌%◌, ◌≤◌, ◌<◌, ◌≡◌, ◌≢◌, refl, ap, ◌∙◌, true, false, ◌&&◌, ◌||◌, not, List, [],
  ◌∷◌, arith, length, ◌==◌, if◌then◌else◌, Bool-cases, inl, inr, ◌⊎◌, is_empty,
}
use pensar.Text.{
  grouping_loop, insert_grouping_char, is_digit, is_space, only_digits, remove_blanks,
}

abbrev pub grouped : ℕ → List ℕ → List ℕ
grouped g [] = []
grouped g (x ∷ xs) =
    let rest = grouped g xs in
    if length xs % 3 == 0 && not (is_empty xs) then x ∷ g ∷ rest else x ∷ rest

-- Before the first separator `count` is `i`; behind it, it counts from there.
abbrev InStep : ℕ → ℕ → ℕ → ℕ → Type 0
InStep primeiro i count left =
    ((i ≤ primeiro) × (count ≡ i) × (primeiro < 3) × ((left + i) % 3 ≡ suc primeiro % 3))
    ⊎ ((primeiro < i) × (count < 3) × ((left + count) % 3 ≡ 0))

grouping_here :
    (primeiro i count left : ℕ)
    → InStep primeiro i count (suc left)
    → (i == primeiro || (if i == primeiro then count else suc count) == 3) ≡ (left % 3 == 0)
grouping_here primeiro i count left h = ground arith

grouping_reset :
    (primeiro i count left : ℕ)
    → InStep primeiro i count (suc left)
    → left % 3 ≡ 0
    → InStep primeiro (suc i) 0 left
grouping_reset primeiro i count left h e = ground arith

grouping_on :
    (primeiro i count left : ℕ)
    → InStep primeiro i count (suc left)
    → left % 3 ≢ 0
    → InStep primeiro (suc i) (if i == primeiro then count else suc count) left
grouping_on primeiro i count left h e = ground arith

grouping_loop-grouped :
    (g primeiro i count : ℕ) (xs : List ℕ)
    → InStep primeiro i count (length xs)
    → grouping_loop g primeiro i count xs ≡ grouped g xs
unfolding grouping_loop
grouping_loop-grouped g primeiro i count [] h = refl
grouping_loop-grouped g primeiro i count (x ∷ []) h = ground arith
grouping_loop-grouped g primeiro i count (x ∷ y ∷ xs) h =
    rw (grouping_here primeiro i count (length (y ∷ xs)) h)
      (elim (Bool-cases (length (y ∷ xs) % 3 == 0)) [
        | inl e ↦ rw e (
            ap (λ t. x ∷ g ∷ t)
              (grouping_loop-grouped g primeiro (suc i) 0 (y ∷ xs)
                (grouping_reset primeiro i count (length (y ∷ xs)) h (ground arith))))
        | inr e ↦ rw e (
            ap (◌∷◌ x) (
              grouping_loop-grouped g primeiro (suc i) (if i == primeiro then count else suc count)
                (y ∷ xs) (grouping_on primeiro i count (length (y ∷ xs)) h (ground arith))))
      ])

-- The result has a grouping character behind each character that is not the last and that a
-- multiple of three characters follows.
pub insert_grouping_char-grouped :
    (s : List ℕ) (grouping_char : ℕ)
    → insert_grouping_char s grouping_char ≡ grouped grouping_char s
unfolding insert_grouping_char
insert_grouping_char-grouped s g = elim (Bool-cases (length s % 3 == 0)) [
  | inl e ↦ rw e (grouping_loop-grouped g 2 0 0 s (inl (ground arith)))
  | inr e ↦ rw e (grouping_loop-grouped g (length s % 3 - 1) 0 0 s (inl (ground arith)))
]

only_digits-grouped :
    (g : ℕ) (s : List ℕ) → is_digit g ≡ false → only_digits (grouped g s) ≡ only_digits s
unfolding only_digits
only_digits-grouped g [] h = refl
only_digits-grouped g (x ∷ xs) h = ground (arith, only_digits-grouped g xs h)

remove_blanks-grouped :
    (g : ℕ) (s : List ℕ) → is_space g ≡ true → remove_blanks (grouped g s) ≡ remove_blanks s
unfolding remove_blanks
remove_blanks-grouped g [] h = refl
remove_blanks-grouped g (x ∷ xs) h = ground (arith, remove_blanks-grouped g xs h)

-- A grouping character that is no digit is taken out again by `only_digits`.
pub only_digits-insert_grouping_char :
    (s : List ℕ) (g : ℕ)
    → is_digit g ≡ false
    → only_digits (insert_grouping_char s g) ≡ only_digits s
only_digits-insert_grouping_char s g h =
    ap only_digits (insert_grouping_char-grouped s g) ∙ only_digits-grouped g s h

-- A grouping character that is a space is taken out again by `remove_blanks`.
pub remove_blanks-insert_grouping_char :
    (s : List ℕ) (g : ℕ)
    → is_space g ≡ true
    → remove_blanks (insert_grouping_char s g) ≡ remove_blanks s
remove_blanks-insert_grouping_char s g h =
    ap remove_blanks (insert_grouping_char-grouped s g) ∙ remove_blanks-grouped g s h
