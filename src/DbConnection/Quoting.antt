-- ===== src/DbConnection/Quoting.antt =====
-- What the database reads a quoted text as.
use pensar.Base.{
  ℕ, ◌≡◌, refl, ap, ◌∙◌, false, Option, none, some, List, [], ◌∷◌, ◌++◌, ◌==◌, if◌then◌else◌,
  append_assoc, arith, Bool-cases, inl, inr,
}
use pensar.DbConnection.{quote_chars, quote_literal}

-- A string constant of SQL, read from behind its first quote: a doubled quote is one, and a single
-- quote ends it. What it stands for, and what follows it.
abbrev pub cons_char : ℕ → Option (List ℕ × List ℕ) → Option (List ℕ × List ℕ)
cons_char c none = none
cons_char c (some (s, rest)) = some (c ∷ s, rest)

unfoldable pub read_chars : List ℕ → Option (List ℕ × List ℕ)
read_chars [] = none
read_chars (c ∷ []) = if c == 39 then some ([], []) else none
read_chars (c ∷ d ∷ text) =
    let single = read_chars (d ∷ text) in
    let doubled = read_chars text in
    if c == 39
    then if d == 39 then cons_char 39 doubled else some ([], d ∷ text)
    else cons_char c single

unfoldable pub read_literal : List ℕ → Option (List ℕ × List ℕ)
unfolding read_chars
read_literal [] = none
read_literal (c ∷ text) = if c == 39 then read_chars text else none

-- A text that starts with no quote.
abbrev pub StartsElse : List ℕ → Type 0
StartsElse [] = Unit
StartsElse (c ∷ text) = (c == 39) ≡ false

pub read_chars-end : (rest : List ℕ) → StartsElse rest → read_chars (39 ∷ rest) ≡ some ([], rest)
unfolding read_chars
read_chars-end [] h = refl
read_chars-end (c ∷ rest) h = rw h refl

pub read_chars-other :
    (c : ℕ) (text s rest : List ℕ)
    → (c == 39) ≡ false
    → read_chars text ≡ some (s, rest)
    → read_chars (c ∷ text) ≡ some (c ∷ s, rest)
unfolding read_chars
read_chars-other c [] s rest other e = cc
read_chars-other c (d ∷ text) s rest other e = rw other (ap (cons_char c) e)

read_chars-doubled :
    (text s rest : List ℕ)
    → read_chars text ≡ some (s, rest)
    → read_chars (39 ∷ 39 ∷ text) ≡ some (39 ∷ s, rest)
unfolding read_chars
read_chars-doubled text s rest e = ap (cons_char 39) e

read_chars-quote_chars :
    (s rest : List ℕ) → StartsElse rest → read_chars (quote_chars s ++ (39 ∷ rest)) ≡ some (s, rest)
unfolding quote_chars
read_chars-quote_chars [] rest h = read_chars-end rest h
read_chars-quote_chars (c ∷ s) rest h = elim (Bool-cases (c == 39)) [
  | inl quote ↦ rw quote (
      read_chars-doubled (quote_chars s ++ (39 ∷ rest)) s rest (read_chars-quote_chars s rest h)
      ∙ ap (λ x. some (x ∷ s, rest)) (ground arith))
  | inr other ↦ rw other (
      read_chars-other c (quote_chars s ++ (39 ∷ rest)) s rest other
        (read_chars-quote_chars s rest h))
]

-- The database reads a quoted text, whatever characters it has, as one string constant for just
-- that text, and the statement goes on where it should: no text ends the constant early.
pub read_literal-quote_literal :
    (s rest : List ℕ) → StartsElse rest → read_literal (quote_literal s ++ rest) ≡ some (s, rest)
unfolding read_literal quote_literal
read_literal-quote_literal s rest h =
    ap read_chars (append_assoc (quote_chars s) (39 ∷ []) rest) ∙ read_chars-quote_chars s rest h
