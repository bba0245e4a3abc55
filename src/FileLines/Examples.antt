-- ===== src/FileLines/Examples.antt =====
-- A file of three lines, the second empty and the last without a newline.
use pensar.Base.{ℕ, ◌+◌, ◌≡◌, refl, some, List, [], ◌∷◌, ◌++◌, length}
use pensar.FileLines.{read_file}
use pensar.FileLines.Handled.{with_newlines, read_file-lines}

-- The sum of the numbers and lengths.
abbrev sum : ℕ → List ℕ → ℕ → ℕ
sum number line state = state + number + length line

abbrev lines : List (List ℕ)
lines = (b'a' ∷ b'b' ∷ []) ∷ [] ∷ []

handled : read_file sum (some (b'a' ∷ b'b' ∷ 10 ∷ 10 ∷ b'c' ∷ [])) 0 ≡ some (6, 3)
unfolding read_file
handled = refl

read_file-lines_example : read_file sum (some (with_newlines lines ++ (b'c' ∷ []))) 0 ≡ some (6, 3)
read_file-lines_example =
    read_file-lines sum lines (b'c' ∷ []) 0 ((refl, (refl, tt)), (tt, tt)) (refl, tt)
