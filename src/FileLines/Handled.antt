-- ===== src/FileLines/Handled.antt =====
-- The lines of a file are handled once each, in order.
use pensar.Base.{
  ℕ, zero, suc, ◌+◌, ◌<◌, ◌≡◌, refl, ap, ◌∙◌, false, Option, none, some, List, [], ◌∷◌, ◌++◌,
  append_assoc, length, length-append, arith, ◌==◌,
}
use pensar.Base.Predicates.{All}
use pensar.Base.Search.{break_at}
use pensar.FileLines.{line_loop, read_file}

abbrev pub IsLine : List ℕ → Type 0
IsLine line = All (λ c. (c == 10) ≡ false) line

-- A newline behind each line.
abbrev pub with_newlines : List (List ℕ) → List ℕ
with_newlines [] = []
with_newlines (line ∷ lines) = line ++ (10 ∷ with_newlines lines)

-- What is behind the last newline, if there is something.
abbrev pub last_line : List ℕ → List (List ℕ)
last_line [] = []
last_line (c ∷ s) = (c ∷ s) ∷ []

-- The handler called with the lines by their order, from a number on.
abbrev pub call_all {ℓ} : {A : Type ℓ} → (ℕ → List ℕ → A → A) → ℕ → List (List ℕ) → A → A
call_all f number [] state = state
call_all f number (line ∷ lines) state = call_all f (suc number) lines (f number line state)

break_at-line :
    (line rest : List ℕ) → IsLine line → break_at 10 (line ++ 10 ∷ rest) ≡ (line, some rest)
unfolding break_at
break_at-line [] rest h = refl
break_at-line (c ∷ line) rest h = rw (h.0, break_at-line line rest h.1) refl

break_at-last : (line : List ℕ) → IsLine line → break_at 10 line ≡ (line, none)
unfolding break_at
break_at-last [] h = refl
break_at-last (c ∷ line) h = rw (h.0, break_at-last line h.1) refl

module _ {ℓ} {A : Type ℓ} (f : ℕ → List ℕ → A → A) where
  -- What a round of the loop does with the characters up to a newline and those behind it.
  abbrev after_getline : ℕ → ℕ → A → List ℕ × Option (List ℕ) → Option (A × ℕ)
  after_getline fuel n state cut = elim cut.1 [
    | none ↦ some (f n cut.0 state, suc n)
    | some after ↦ line_loop f fuel after (suc n) (f n cut.0 state)
  ]

  line_loop-line :
      (fuel : ℕ) (line rest : List ℕ) (n : ℕ) (state : A)
      → IsLine line
      → line_loop f (suc fuel) (line ++ 10 ∷ rest) n state
        ≡ line_loop f fuel rest (suc n) (f n line state)
  unfolding line_loop
  line_loop-line fuel [] rest n state h = refl
  line_loop-line fuel (c ∷ line) rest n state h =
      ap (after_getline fuel n state) (break_at-line (c ∷ line) rest h)

  line_loop-lines :
      (fuel : ℕ) (lines : List (List ℕ)) (last : List ℕ) (n : ℕ) (state : A)
      → All IsLine lines
      → IsLine last
      → length (with_newlines lines ++ last) < fuel
      → line_loop f fuel (with_newlines lines ++ last) n state
        ≡ some (call_all f n (lines ++ last_line last) state, length (lines ++ last_line last) + n)
  unfolding line_loop
  line_loop-lines zero lines last n state hs h long = elim long [ ]
  line_loop-lines (suc fuel) [] [] n state hs h long = ap (λ k. some (state, k)) (omega arith)
  line_loop-lines (suc fuel) [] (c ∷ last) n state hs h long =
      ap (after_getline fuel n state) (break_at-last (c ∷ last) h)
      ∙ ap (λ k. some (f n (c ∷ last) state, k)) (omega arith)
  line_loop-lines (suc fuel) (line ∷ lines) last n state hs h long =
      ap (λ t. line_loop f (suc fuel) t n state) (append_assoc line (10 ∷ with_newlines lines) last)
      ∙ line_loop-line fuel line (with_newlines lines ++ last) n state hs.0
      ∙ line_loop-lines fuel lines last (suc n) (f n line state) hs.1 h (
          omega (
            arith,
            long,
            length-append (line ++ 10 ∷ with_newlines lines) last,
            length-append line (10 ∷ with_newlines lines),
            length-append (with_newlines lines) last,
          ))
      ∙ ap (λ k. some (call_all f (suc n) (lines ++ last_line last) (f n line state), k))
          (omega arith)

  -- For a file of lines with a newline behind each, and of what is behind the last newline, the loop
  -- ends, the handler is called once with each line in order, numbered from 0, and the result is the
  -- count of the lines; nothing behind the last newline is no line.
  pub read_file-lines :
      (lines : List (List ℕ)) (last : List ℕ) (state : A)
      → All IsLine lines
      → IsLine last
      → read_file f (some (with_newlines lines ++ last)) state
        ≡ some (call_all f 0 (lines ++ last_line last) state, length (lines ++ last_line last))
  unfolding read_file
  read_file-lines lines last state hs h =
      line_loop-lines (suc (length (with_newlines lines ++ last))) lines last 0 state hs h
        (omega arith)
      ∙ ap (λ k. some (call_all f 0 (lines ++ last_line last) state, k)) (omega arith)
