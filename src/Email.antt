-- ===== src/Email.antt =====
-- contact/e-mail.hpp: the checks of an address, and `Email` made from a text. Characters are
-- bytes, and a `find` from a position is a search in the rest of the text.
pub mod Labels
pub mod Validity
pub mod Construction
mod Examples
use pensar.Base.{
  ℕ, zero, suc, ◌+◌, ◌-◌, Bool, true, false, ◌&&◌, ◌||◌, not, Option, none, some, List, [], ◌∷◌,
  ◌++◌, ltb, leb, ◌==◌, if◌then◌else◌, length, get_or, is_empty,
}
use pensar.Base.Outcome.{Outcome, done, throws, runtime_error, ◌>>=◌}
use pensar.Base.Search.{break_at}
use pensar.FixedString.{FixedString, Sensitivity, str, from_s, fixed_equal}

pub is_letter : ℕ → Bool
is_letter ch = (leb b'a' ch && leb ch b'z') || (leb b'A' ch && leb ch b'Z')

pub is_digit : ℕ → Bool
is_digit ch = leb b'0' ch && leb ch b'9'

-- The characters that the local part may hold beside dots, and those of a label.
pub is_local_char : ℕ → Bool
unfolding is_letter is_digit
is_local_char ch = is_letter ch || is_digit ch || ch == b'_' || ch == b'-' || ch == b'+'

pub is_label_char : ℕ → Bool
unfolding is_letter is_digit
is_label_char ch = is_letter ch || is_digit ch || ch == b'-'

-- The last character, and a null character of the empty text.
abbrev pub back : List ℕ → ℕ
back s = get_or s (length s - 1) 0

-- The loop of `is_valid_local_part`, with `prev_dot`.
pub local_loop : Bool → List ℕ → Bool
unfolding is_local_char
local_loop prev_dot [] = true
local_loop prev_dot (ch ∷ rest) =
    let valid = local_loop (ch == b'.') rest in
    if ch == b'.'
    then (if prev_dot then false else valid)
    else if is_local_char ch
    then valid
    else false

pub is_valid_local_part : List ℕ → Bool
unfolding local_loop
is_valid_local_part lp =
    if is_empty lp || ltb 64 (length lp)
    then false
    else if get_or lp 0 0 == b'.' || back lp == b'.'
    then false
    else local_loop false lp

-- `for (i = start; i < dot; ++i)`
pub all_label_chars : List ℕ → Bool
unfolding is_label_char
all_label_chars [] = true
all_label_chars (ch ∷ rest) = if is_label_char ch then all_label_chars rest else false

pub is_valid_label : List ℕ → Bool
unfolding all_label_chars
is_valid_label label =
    if length label == 0 || ltb 63 (length label)
    then false
    else if get_or label 0 0 == b'-' || back label == b'-'
    then false
    else all_label_chars label

-- The loop over the labels, with fuel: `none` is a `return false`, else the count of labels.
pub label_loop : ℕ → List ℕ → ℕ → Option ℕ
unfolding break_at is_valid_label
label_loop zero rest label_count = none
label_loop (suc fuel) rest label_count =
    let (label, more) = break_at b'.' rest in
    let next : Option ℕ = elim more [
      | none ↦ some (suc label_count)
      | some after ↦ label_loop fuel after (suc label_count)
    ] in
    if is_valid_label label then next else none

-- What follows the last `c`, if there is one; without it `rfind` is `npos`, and `npos + 1` is 0.
after_last? : ℕ → List ℕ → Option (List ℕ)
after_last? c [] = none
after_last? c (x ∷ xs) = elim (after_last? c xs) [
  | some t ↦ some t
  | none ↦ if x == c then some xs else none
]

pub after_last : ℕ → List ℕ → List ℕ
unfolding after_last?
after_last c s = elim (after_last? c s) [ some t ↦ t | none ↦ s ]

pub all_letters : List ℕ → Bool
unfolding is_letter
all_letters [] = true
all_letters (ch ∷ rest) = if not (is_letter ch) then false else all_letters rest

pub check_tld : List ℕ → Bool
unfolding all_letters
check_tld tld = if ltb (length tld) 2 then false else all_letters tld

-- The fuel is one more than the characters; a round takes one character at least, or is the last.
pub is_valid_domain : List ℕ → Bool
unfolding label_loop after_last check_tld
is_valid_domain domain =
    if is_empty domain || ltb 255 (length domain)
    then false
    else elim (label_loop (suc (length domain)) domain 0) [
      | none ↦ false
      | some label_count ↦ if ltb label_count 2 then false else check_tld (after_last b'.' domain)
    ]

pub contains_char : ℕ → List ℕ → Bool
contains_char c [] = false
contains_char c (x ∷ xs) = x == c || contains_char c xs

-- The parts before and after the first '@'.
check_parts : List ℕ → Option (List ℕ) → Bool
unfolding is_valid_local_part is_valid_domain contains_char
check_parts local none = false
check_parts local (some domain) =
    if is_empty local || is_empty domain
    then false
    else if contains_char b'@' domain
    then false
    else is_valid_local_part local && is_valid_domain domain

pub is_valid_email_address : List ℕ → Bool
unfolding break_at check_parts
is_valid_email_address email_address =
    let (local, rest) = break_at b'@' email_address in
    if is_empty email_address then false else check_parts local rest

pub data ContactQualifier : Type 0 where
  business personal other : ContactQualifier

pub record Email : Type 0 where
  pub local_part : FixedString
  pub domain : FixedString
  pub qualifier : ContactQualifier

abbrev pub null_text : List ℕ
null_text = b'n' ∷ b'u' ∷ b'l' ∷ b'l' ∷ []

module _ (remove_accent : ℕ → ℕ) (cq : ContactQualifier) where
  -- `lp == NULL_LOCAL_PART && d == NULL_DOMAIN`, with the comparison of a `CS`.
  pub is_null : FixedString → FixedString → Bool
  is_null lp d =
      let loose : Sensitivity = record { to_case = false; to_accent = false } in
      let null_string : FixedString = record { chars = null_text ++ 0 ∷ [] } in
      fixed_equal remove_accent loose lp null_string
      && fixed_equal remove_accent loose d null_string

  pub initialize : FixedString → FixedString → Outcome Email
  unfolding is_null is_valid_local_part is_valid_domain
  initialize lp d =
      if not (is_null lp d) && not (is_valid_local_part (str lp))
      then throws runtime_error
      else if not (is_null lp d) && not (is_valid_domain (str d))
      then throws runtime_error
      else done (record { local_part = lp; domain = d; qualifier = cq })

  email_of_parts : List ℕ → Option (List ℕ) → Outcome Email
  unfolding initialize
  email_of_parts local none = throws runtime_error
  email_of_parts local (some domain) = do
    lp ← from_s 0 64 local
    d ← from_s 0 255 domain
    initialize lp d

  -- The constructor from a text.
  pub email_of_s : List ℕ → Outcome Email
  unfolding email_of_parts break_at
  email_of_s s = let (local, rest) = break_at b'@' s in email_of_parts local rest

-- `str`, which adds the domain to a text by an operator that throws where the two and a null
-- character exceed the domain's array; `str` is `noexcept`, so the program then ends.
pub email_str : Email → Outcome (List ℕ)
email_str e =
    let lhs = str e.local_part ++ b'@' ∷ [] in
    if ltb 255 (length lhs + length (str e.domain) + 1)
    then throws runtime_error
    else done (lhs ++ str e.domain)
