-- ===== src/DbConnection/Examples.antt =====
-- Quoted texts and sessions, and the theorems at concrete ones.
use pensar.Base.{ℕ, ltb, ◌≡◌, refl, Bool, some, List, [], ◌∷◌, ◌++◌, length}
use pensar.DbConnection.{quote_literal}
use pensar.DbConnection.Quoting.{read_literal, read_literal-quote_literal}

-- `O'B`
abbrev name : List ℕ
name = 79 ∷ 39 ∷ 66 ∷ []

quoted_name : quote_literal name ≡ 39 ∷ 79 ∷ 39 ∷ 39 ∷ 66 ∷ 39 ∷ []
unfolding quote_literal
quoted_name = refl

read_literal-quote_literal_example :
    read_literal (quote_literal name ++ (59 ∷ [])) ≡ some (name, 59 ∷ [])
read_literal-quote_literal_example = read_literal-quote_literal name (59 ∷ []) refl

-- A statement of more than 33 characters fails.
abbrev long_fails : List ℕ → Bool
long_fails text = ltb 33 (length text)

-- The user is set, and the locale is not.
abbrev long_locale : List ℕ
long_locale = 101 ∷ 110 ∷ 45 ∷ 85 ∷ 83 ∷ 45 ∷ 112 ∷ 111 ∷ 115 ∷ 105 ∷ 120 ∷ 45 ∷ 97 ∷ []
