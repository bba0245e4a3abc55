-- ===== src/Text.antt =====
-- cpp/src/s.hpp: the string functions. A string is its characters as numbers, and characters are
-- classed as in the C locale. A loop that may go on for ever has fuel, and `none` says that the
-- fuel ended before the loop did.
pub mod Fields
pub mod Trim
pub mod Replace
pub mod Spaces
pub mod Grouping
pub mod Numbers
pub mod Edges
pub mod Letters
mod Examples
use pensar.Base.{
  ℕ, zero, suc, ◌+◌, ◌-◌, ◌%◌, ◌^◌, ◌≤◌, Bool, true, false, ◌&&◌, ◌||◌, not, Option, none, some,
  List, [], ◌∷◌, ◌++◌, ltb, leb, ◌==◌, if◌then◌else◌, length, get_or, is_empty, take, drop,
  replicate,
}
use pensar.Base.Search.{break_at}
use pensar.Base.Outcome.{Outcome, done, throws, out_of_range}

unfoldable pub is_space : ℕ → Bool
is_space c = (leb 9 c && leb c 13) || c == 32

pub ltrim : List ℕ → List ℕ
unfolding is_space
ltrim [] = []
ltrim (x ∷ xs) = let rest = ltrim xs in if is_space x then rest else x ∷ xs

-- The end is cut behind the last character that is no space.
pub rtrim : List ℕ → List ℕ
unfolding is_space
rtrim [] = []
rtrim (x ∷ xs) = let rest = rtrim xs in if is_empty rest && is_space x then [] else x ∷ rest

pub trim : List ℕ → List ℕ
unfolding ltrim rtrim
trim s = ltrim (rtrim s)

-- What `split` inserts for one piece.
pub field : Bool → Bool → List ℕ → List (List ℕ)
unfolding trim
field trim_elements include_empty_fields piece =
    let aux = if trim_elements then trim piece else piece in
    if include_empty_fields || not (is_empty aux) then aux ∷ [] else []

-- The loop over the separators, from a position on.
pub split_loop : Bool → Bool → ℕ → ℕ → List ℕ → List (List ℕ)
unfolding field break_at
split_loop trim_elements include_empty_fields ch zero rest = []
split_loop trim_elements include_empty_fields ch (suc fuel) rest =
    let (piece, more) = break_at ch rest in
    field trim_elements include_empty_fields piece ++ elim more [
      | none ↦ []
      | some after ↦ split_loop trim_elements include_empty_fields ch fuel after
    ]

-- Without a separator the string goes in as it is.
pub split : List ℕ → ℕ → Bool → Bool → List (List ℕ)
unfolding split_loop break_at
split s ch trim_elements include_empty_fields = elim (break_at ch s).1 [
  | none ↦ s ∷ []
  | some after ↦ split_loop trim_elements include_empty_fields ch (suc (length s)) s
]

pub data Side : Type 0 where
  pad_right pad_left : Side

-- `none` is the failed assertion that `n`, as a signed number of 32 bits, is positive.
unfoldable pub pad : List ℕ → ℕ → ℕ → Side → Option (List ℕ)
pad s c n side =
    let fill = replicate (n - length s) c in
    let padded : List ℕ = elim side [ pad_right ↦ s ++ fill | pad_left ↦ fill ++ s ] in
    let low = n % 2 ^ 32 in
    if n == 0
    then some s
    else if low == 0 || leb (2 ^ 31) low
    then none
    else if ltb (length s) n
    then some padded
    else some s

unfoldable pub is_digit : ℕ → Bool
is_digit c = leb b'0' c && leb c b'9'

unfoldable pub only_digits : List ℕ → List ℕ
unfolding is_digit
only_digits [] = []
only_digits (x ∷ xs) = let rest = only_digits xs in if is_digit x then x ∷ rest else rest

pub remove_blanks : List ℕ → List ℕ
unfolding is_space
remove_blanks [] = []
remove_blanks (x ∷ xs) = let rest = remove_blanks xs in if is_space x then rest else x ∷ rest

-- What follows `o` at the start of a string, if `o` stands there.
pub strip_prefix : List ℕ → List ℕ → Option (List ℕ)
strip_prefix [] s = some s
strip_prefix (x ∷ o) [] = none
strip_prefix (x ∷ o) (y ∷ s) = let rest = strip_prefix o s in if x == y then rest else none

-- `find` of a string: the text before its first occurrence, and the text after it.
unfoldable pub find : List ℕ → List ℕ → Option (List ℕ × List ℕ)
unfolding strip_prefix
find o [] = elim (strip_prefix o []) [ some after ↦ some ([], after) | none ↦ none ]
find o (x ∷ s) = elim (strip_prefix o (x ∷ s)) [
  | some after ↦ some ([], after)
  | none ↦ elim (find o s) [ none ↦ none | some cut ↦ some (x ∷ cut.0, cut.1) ]
]

-- The loop of `replace_substr`; that of `remove` and `remove_substr` replaces by nothing.
pub replace_loop : ℕ → List ℕ → List ℕ → List ℕ → Option (List ℕ)
unfolding find
replace_loop zero o r s = none
replace_loop (suc fuel) o r s = elim (find o s) [
  | none ↦ some s
  | some cut ↦ replace_loop fuel o r (cut.0 ++ r ++ cut.1)
]

pub remove_substr : ℕ → List ℕ → List ℕ → Option (List ℕ)
unfolding replace_loop
remove_substr fuel p s = replace_loop fuel p [] s

-- The string afterwards, and whether something was replaced.
unfoldable pub replace_substr : ℕ → List ℕ → List ℕ → List ℕ → Option (List ℕ × Bool)
unfolding replace_loop find
replace_substr fuel o r [] = some ([], false)
replace_substr fuel o r (x ∷ s) =
    let replaced : Bool = elim (find o (x ∷ s)) [ none ↦ false | some cut ↦ true ] in
    elim (replace_loop fuel o r (x ∷ s)) [ none ↦ none | some t ↦ some (t, replaced) ]

-- `while (replace_substr (s, "  ", " "));`, with fuel for each loop.
unfoldable double_spaces_loop : ℕ → ℕ → List ℕ → Option (List ℕ)
unfolding replace_substr
double_spaces_loop zero inner s = none
double_spaces_loop (suc fuel) inner s = elim (replace_substr inner (32 ∷ 32 ∷ []) (32 ∷ []) s) [
  | none ↦ none
  | some (t, false) ↦ some t
  | some (t, true) ↦ double_spaces_loop fuel inner t
]

pub remove_double_spaces : ℕ → ℕ → List ℕ → Option (List ℕ)
unfolding double_spaces_loop
remove_double_spaces fuel inner s = if is_empty s then some s else double_spaces_loop fuel inner s

-- The loop of `insert_grouping_char`, with `i` and `count`.
pub grouping_loop : ℕ → ℕ → ℕ → ℕ → List ℕ → List ℕ
grouping_loop grouping_char primeiro i count [] = []
grouping_loop grouping_char primeiro i count (x ∷ rest) =
    let counted = if i == primeiro then count else suc count in
    let here = (i == primeiro || counted == 3) && not (is_empty rest) in
    let more = grouping_loop grouping_char primeiro (suc i) (if here then 0 else counted) rest in
    if here then x ∷ grouping_char ∷ more else x ∷ more

pub insert_grouping_char : List ℕ → ℕ → List ℕ
unfolding grouping_loop
insert_grouping_char s grouping_char =
    let primeiro = if length s % 3 == 0 then 3 else length s % 3 in
    grouping_loop grouping_char (primeiro - 1) 0 0 s

-- Two calls of `erase`, the second at the last position of what the first leaves. A position
-- behind the end is an exception, and in an empty string that position wraps around.
unfoldable pub remove_delimiters : ℕ → List ℕ → Outcome (List ℕ)
remove_delimiters delimiter s =
    let rest = drop 1 s in
    if get_or s 0 0 == delimiter && get_or s (length s - 1) 0 == delimiter
    then (if is_empty rest then throws out_of_range else done (take (length rest - 1) rest))
    else done s

-- The text before the last dot; `none` where there is no dot.
before_last_dot : List ℕ → Option (List ℕ)
before_last_dot [] = none
before_last_dot (x ∷ xs) = elim (before_last_dot xs) [
  | some t ↦ some (x ∷ t)
  | none ↦ if x == b'.' then some [] else none
]

pub remove_ext : List ℕ → List ℕ
unfolding before_last_dot
remove_ext fname = elim (before_last_dot fname) [ none ↦ fname | some base ↦ base ]
