-- ===== src/RandomFileName/Examples.antt =====
-- A random name, and the theorem on random strings.
use pensar.Base.{ℕ, ◌+◌, ◌*◌, ◌%◌, ◌≡◌, refl, true, false, List, [], ◌∷◌, length, arith, codes}
use pensar.Base.Predicates.{All}
use pensar.Base.Outcome.{done}
use pensar.RandomFileName.{Generator, fixed, char_at, is_number, random_string, file_name}
use pensar.RandomFileName.Strings.{is_alnum, random_string-letter}

abbrev draws : ℕ → ℕ
draws k = (7 * k + 3) % 62

abbrev text_files : Generator
text_files = record { mextension_type = fixed; mextension = codes "txt"; mcustom_ext_function = [] }

-- The extension asked for is not used.
a_name :
    file_name text_files (codes "a") (codes "z") (codes "bin") draws draws
    ≡ done (codes "aAHOVcjqxz.txt")
unfolding file_name codes char_at
a_name = refl

random_string-letter_example :
    (s : List ℕ) × (c : ℕ) × (random_string draws 8 ≡ done (c ∷ s))
    × (length (c ∷ s) ≡ 8)
    × (is_number c ≡ false)
    × All (λ c. is_alnum c ≡ true) (c ∷ s)
unfolding is_number char_at
random_string-letter_example =
    random_string-letter draws (λ k. omega arith) 8 1 (omega arith) (omega arith) (omega arith) refl
