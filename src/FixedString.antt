-- ===== src/FixedString.antt =====
-- cpp/src/cs.hpp: characters compared with or without case and accents, and `CS`, a string in a
-- fixed array that ends at its first null character. A character is its byte. What ICU makes of
-- an accented character is a parameter; `std::tolower` is that of the C locale.
pub mod Compare
pub mod Copy
pub mod Append
pub mod Triples
mod Examples
use pensar.Base.{
  ℕ, zero, suc, ◌+◌, Bool, true, false, ◌&&◌, ◌||◌, not, Option, none, some, List, [], ◌∷◌, ◌++◌,
  ltb, leb, ◌==◌, if◌then◌else◌, length, take, drop, replicate, set, get_or, ◌-◌,
}
use pensar.Base.Outcome.{Outcome, done, throws, runtime_error}

pub tolower : ℕ → ℕ
tolower c = if leb b'A' c && leb c b'Z' then c + 32 else c

-- The two flags of a `CS` type, and of the comparisons of characters.
pub record Sensitivity : Type 0 where
  pub to_case : Bool
  pub to_accent : Bool

module _ (remove_accent : ℕ → ℕ) where
  pub char_equal : Sensitivity → ℕ → ℕ → Bool
  unfolding tolower
  char_equal s c d =
      if s.to_case
      then (if s.to_accent then c == d else remove_accent c == remove_accent d)
      else if s.to_accent
      then tolower c == tolower d
      else tolower (remove_accent c) == tolower (remove_accent d)

  pub char_less : Sensitivity → ℕ → ℕ → Bool
  unfolding tolower
  char_less s c d =
      if s.to_case
      then (if s.to_accent then ltb c d else ltb (remove_accent c) (remove_accent d))
      else if s.to_accent
      then ltb (tolower c) (tolower d)
      else ltb (tolower (remove_accent c)) (tolower (remove_accent d))

  pub not_equal : Sensitivity → ℕ → ℕ → Bool
  unfolding char_equal
  not_equal s c d = not (char_equal s c d)

  pub greater : Sensitivity → ℕ → ℕ → Bool
  unfolding char_less char_equal
  greater s c d = not (char_less s c d) && not (char_equal s c d)

  pub less_equal : Sensitivity → ℕ → ℕ → Bool
  unfolding char_less char_equal
  less_equal s c d = char_less s c d || char_equal s c d

  pub greater_equal : Sensitivity → ℕ → ℕ → Bool
  unfolding greater char_equal
  greater_equal s c d = greater s c d || char_equal s c d

-- The array, of `MAX` characters.
pub record FixedString : Type 0 where
  pub chars : List ℕ

-- The characters before the first null character; `std::char_traits::length` counts them.
unfoldable pub until_null : List ℕ → List ℕ
until_null [] = []
until_null (c ∷ cs) = if c == 0 then [] else c ∷ until_null cs

-- `to_string` and `str`.
unfoldable pub str : FixedString → List ℕ
unfolding until_null
str f = until_null f.chars

unfoldable pub str_length : FixedString → ℕ
unfolding str
str_length f = length (str f)

pub is_null_char : FixedString → ℕ → Bool
is_null_char f index = get_or f.chars index 0 == 0

-- The default constructor.
pub fill_null : ℕ → FixedString
fill_null max = record { chars = replicate max 0 }

unfoldable pub empty : FixedString → Bool
unfolding str_length
empty f = str_length f == 0

pub eq_strlen : FixedString → FixedString → Bool
unfolding str_length
eq_strlen f g = str_length f == str_length g

-- `std::memcpy (data () + at, s, n)`
pub memcpy : ℕ → List ℕ → List ℕ → List ℕ
memcpy at s chars = take at chars ++ (s ++ drop (at + length s) chars)

-- `copy` of all of `s`, whose length the caller gives.
unfoldable pub copy : ℕ → ℕ → List ℕ → Bool → Bool → FixedString → Outcome FixedString
unfolding fill_null memcpy
copy min max s add_null_at_end fill_null_before_copy f =
    let filled = if fill_null_before_copy then (fill_null max).chars else f.chars in
    let copied = memcpy 0 s filled in
    let ended = if add_null_at_end then set copied (length s) 0 else copied in
    if leb max (length s)
    then throws runtime_error
    else if ltb (length s) min
    then throws runtime_error
    else done (record { chars = ended })

-- The constructor from a string, and the assignment of one.
unfoldable pub from_s : ℕ → ℕ → List ℕ → Outcome FixedString
unfolding copy
from_s min max s = copy min max s true true (fill_null max)

-- `assign`: the other string, up to its null character.
pub assign : ℕ → ℕ → FixedString → FixedString → Outcome FixedString
unfolding copy str
assign min max f other = copy min max (str other) true true f

module _ (remove_accent : ℕ → ℕ) (s : Sensitivity) where
  -- The loop of `operator==`, over the characters of both strings up to the common length.
  equal_loop : ℕ → List ℕ → List ℕ → Bool
  equal_loop zero cs ds = true
  equal_loop (suc n) [] ds = true
  equal_loop (suc n) (c ∷ cs) [] = true
  equal_loop (suc n) (c ∷ cs) (d ∷ ds) = char_equal remove_accent s c d && equal_loop n cs ds

  pub fixed_equal : FixedString → FixedString → Bool
  unfolding equal_loop eq_strlen
  fixed_equal f g = eq_strlen f g && equal_loop (str_length f) f.chars g.chars

  -- `operator<`: the first characters, and then each of those up to the length of the first.
  less_loop : ℕ → List ℕ → List ℕ → Bool
  less_loop zero cs ds = true
  less_loop (suc n) [] ds = true
  less_loop (suc n) (c ∷ cs) [] = true
  less_loop (suc n) (c ∷ cs) (d ∷ ds) = char_less remove_accent s c d && less_loop n cs ds

  pub fixed_less : FixedString → FixedString → Bool
  unfolding less_loop
  fixed_less f g =
      char_less remove_accent s (get_or f.chars 0 0) (get_or g.chars 0 0)
      && less_loop (str_length f - 1) (drop 1 f.chars) (drop 1 g.chars)

-- How `operator+=` ends: with the longer string, by an exception, or with its null character
-- written behind the array.
pub data Appended : Type 0 where
  appended : FixedString → Appended
  too_long overruns : Appended

pub append : ℕ → FixedString → FixedString → Appended
unfolding memcpy str_length
append max f other =
    let joined = memcpy (str_length f) (str other) f.chars in
    let total = str_length f + str_length other in
    if ltb max total
    then too_long
    else if total == max
    then overruns
    else appended (record { chars = set joined total 0 })
