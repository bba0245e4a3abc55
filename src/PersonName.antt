-- ===== src/PersonName.antt =====
-- contact/person.hpp: `PersonName`, three fixed strings of 20 characters, with `write` to a text
-- stream and `read` from one. A stream is the characters left to read, and its fail bit.
pub mod Words
pub mod Streams
pub mod Equality
mod Examples
use pensar.Base.{
  ℕ, Bool, true, false, not, ◌&&◌, ◌||◌, List, [], ◌∷◌, ◌++◌, is_empty, ◌==◌, if◌then◌else◌,
}
use pensar.Base.Outcome
use pensar.Base.Outcome.{Outcome, done, throws, ◌>>=◌}
use pensar.FixedString.{FixedString, str, copy, empty, Sensitivity, fixed_equal}

pub record PersonName : Type 0 where
  pub mfirst : FixedString
  pub mmiddle : FixedString
  pub mlast : FixedString

abbrev pub max_name : ℕ
max_name = 20

pub record InStream : Type 0 where
  pub left : List ℕ
  pub failed : Bool

abbrev pub is_space : ℕ → Bool
is_space c = c == b' ' || (c == 9 || (c == 10 || (c == 11 || (c == 12 || c == 13))))

pub skip_spaces : List ℕ → List ℕ
skip_spaces [] = []
skip_spaces (c ∷ s) = let rest = skip_spaces s in if is_space c then rest else c ∷ s

-- The characters up to a space.
pub take_word : List ℕ → List ℕ × List ℕ
take_word [] = ([], [])
take_word (c ∷ s) =
    let (word, rest) = take_word s in if is_space c then ([], c ∷ s) else (c ∷ word, rest)

-- `is >> s` of a string: a stream with nothing but spaces left fails, and gives the empty string.
abbrev pub of_word : List ℕ × List ℕ → List ℕ × InStream
of_word r = (r.0, record { left = r.1; failed = is_empty r.0 })

pub read_word : InStream → List ℕ × InStream
unfolding skip_spaces take_word
read_word is = if is.failed then ([], is) else of_word (take_word (skip_spaces is.left))

-- `is.peek () == SPACE`; at the end, and on a stream that failed, there is no character.
pub peeks_space : InStream → Bool
peeks_space is = not is.failed && starts is.left
  where
    starts : List ℕ → Bool
    starts [] = false
    starts (c ∷ s) = c == b' '

-- `if (is.peek () == SPACE) is.ignore ();`
pub ignore_space : InStream → InStream
unfolding peeks_space
ignore_space is = if peeks_space is then record is { left = behind is.left } else is
  where
    behind : List ℕ → List ℕ
    behind [] = []
    behind (c ∷ s) = s

-- `read` of a fixed string: a word, copied.
pub read_fixed : InStream → FixedString → Outcome (FixedString × InStream)
unfolding read_word copy
read_fixed is f =
    let (word, rest) = read_word is in copy 0 max_name word true true f >>= (λ g. done (g, rest))

-- The text that `write` adds to a stream.
pub write_name : PersonName → List ℕ
write_name p =
    str p.mfirst
    ++ ((b' ' ∷ (if empty p.mmiddle then [] else str p.mmiddle ++ (b' ' ∷ []))) ++ str p.mlast)

pub read_middle : InStream → FixedString → Outcome (FixedString × InStream)
unfolding peeks_space read_fixed
read_middle is f = if peeks_space is then done (f, is) else read_fixed is f

pub read_name : InStream → PersonName → Outcome (PersonName × InStream)
unfolding read_fixed read_middle ignore_space
read_name is p = read_fixed is p.mfirst >>= (λ first.
    read_middle (ignore_space first.1) p.mmiddle >>= (λ middle.
      read_fixed (ignore_space middle.1) p.mlast
      >>= (λ last. done (record { mfirst = first.0; mmiddle = middle.0; mlast = last.0 }, last.1))))

-- `operator==`, with the comparison of the fixed strings.
pub name_equal : (ℕ → ℕ) → Sensitivity → PersonName → PersonName → Bool
name_equal remove_accent s p other =
    (fixed_equal remove_accent s p.mfirst other.mfirst
      && fixed_equal remove_accent s p.mmiddle other.mmiddle)
    && fixed_equal remove_accent s p.mlast other.mlast
