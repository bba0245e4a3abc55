-- ===== src/Email/Construction.antt =====
-- An `Email` made from an accepted address, and its text.
use pensar.Base.{
  ℕ, suc, ◌+◌, ◌≤◌, ◌<◌, ◌≡◌, refl, ap, ◌∙◌, sym, Bool, true, false, not, some, List, [], ◌∷◌, ◌++◌,
  arith, length, ◌==◌, if◌then◌else◌, Option-cases, inl, inr, ltb, length-append, append_assoc,
}
use pensar.Base.Outcome.{done, throws, runtime_error, ◌>>=◌}
use pensar.Base.Search.{break_at, split_on, split_on-break_at, break_at-append}
use pensar.FixedString.{FixedString, until_null, str, from_s, fill_null}
use pensar.FixedString.Copy.{copy-str, copy_throws}
use pensar.Email.{
  Email, ContactQualifier, is_valid_label, all_label_chars, is_label_char, is_local_char,
  local_loop, is_valid_local_part, is_valid_domain, is_valid_email_address, initialize, email_of_s,
  email_of_parts, email_str,
}
use pensar.Email.Labels.{all_labels}
use pensar.Email.Validity.{all_labels-is_label, all_chars, is_domain, is_valid_domain-labels}

abbrev no_null : ℕ → Bool
no_null c = not (c == 0)

until_null_all : (xs : List ℕ) → all_chars no_null xs ≡ true → until_null xs ≡ xs
unfolding until_null
until_null_all [] h = refl
until_null_all (x ∷ xs) h = ground (arith, until_null_all xs)

local_loop-no_null : (p : Bool) (xs : List ℕ) → local_loop p xs ≡ true → all_chars no_null xs ≡ true
unfolding local_loop is_local_char
local_loop-no_null p [] h = refl
local_loop-no_null p (x ∷ xs) h = ground (arith, local_loop-no_null (x == b'.') xs)

all_label_chars-no_null : (xs : List ℕ) → all_label_chars xs ≡ true → all_chars no_null xs ≡ true
unfolding all_label_chars is_label_char
all_label_chars-no_null [] h = refl
all_label_chars-no_null (x ∷ xs) h = ground (arith, all_label_chars-no_null xs)

all_labels-no_null :
    (ls : List (List ℕ))
    → all_labels is_valid_label ls ≡ true
    → all_labels (all_chars no_null) ls ≡ true
unfolding is_valid_label
all_labels-no_null [] h = refl
all_labels-no_null (l ∷ ls) h = ground (arith, all_label_chars-no_null l, all_labels-no_null ls)

split_on-no_null :
    (xs : List ℕ)
    → all_labels (all_chars no_null) (split_on b'.' xs) ≡ true
    → all_chars no_null xs ≡ true
unfolding split_on
split_on-no_null [] h = refl
split_on-no_null (x ∷ xs) h = ground (arith, split_on-break_at b'.' xs, split_on-no_null xs)

-- A copy into an array with room gives a fixed string with just these characters.
from_s-str :
    (max : ℕ) (s : List ℕ)
    → length s < max
    → all_chars no_null s ≡ true
    → (f : FixedString) × (from_s 0 max s ≡ done f) × (str f ≡ s)
unfolding from_s
from_s-str max s h k =
    let (f, copied, _, held) = copy-str 0 max s (fill_null max) (omega arith) h in
    (f, copied, held ∙ until_null_all s k)

from_s_full : (max : ℕ) (s : List ℕ) → max ≤ length s → from_s 0 max s ≡ throws runtime_error
unfolding from_s
from_s_full max s h = copy_throws 0 max s (fill_null max) (inl h)

-- What an accepted address consists of.
valid_parts :
    (s : List ℕ)
    → is_valid_email_address s ≡ true
    → (domain : List ℕ) × ((break_at b'@' s).1 ≡ some domain)
      × (is_valid_local_part (break_at b'@' s).0 ≡ true)
      × (is_valid_domain domain ≡ true)
unfolding is_valid_email_address
valid_parts s h = elim (Option-cases (break_at b'@' s).1) [
  | inl e ↦ absurd (ground (arith, e))
  | inr (domain, e) ↦ (domain, e, ground arith, ground arith)
]

is_valid_local_part-no_null :
    (lp : List ℕ) → is_valid_local_part lp ≡ true → all_chars no_null lp ≡ true
unfolding is_valid_local_part
is_valid_local_part-no_null lp h = ground (arith, local_loop-no_null false lp)

is_valid_domain-no_null : (d : List ℕ) → is_valid_domain d ≡ true → all_chars no_null d ≡ true
is_valid_domain-no_null d h = split_on-no_null d (
    all_labels-no_null (split_on b'.' d) (
      unfold is_domain in
      (ground (arith, is_valid_domain-labels d, all_labels-is_label (split_on b'.' d)))))

email_str_parts :
    (s local domain : List ℕ) (e : Email)
    → str e.local_part ≡ local
    → str e.domain ≡ domain
    → s ≡ local ++ b'@' ∷ domain
    → length s ≤ 254
    → email_str e ≡ done s
unfolding email_str
email_str_parts s local domain e lp_str d_str split total =
    let whole : (str e.local_part ++ b'@' ∷ []) ++ str e.domain ≡ s =
      append_assoc (str e.local_part) (b'@' ∷ []) (str e.domain)
      ∙ (λ i. lp_str i ++ b'@' ∷ d_str i)
      ∙ sym split in
    let size =
      sym (length-append (str e.local_part ++ b'@' ∷ []) (str e.domain)) ∙ ap length whole in
    let fits : ltb 255 (length (str e.local_part ++ b'@' ∷ []) + length (str e.domain) + 1)
        ≡ false =
      ground arith in
    ap
      (λ t.
        if t then throws runtime_error else done ((str e.local_part ++ b'@' ∷ []) ++ str e.domain))
      fits
    ∙ ap done whole

module _ (remove_accent : ℕ → ℕ) (cq : ContactQualifier) where
  initialize_valid :
      (lp d : FixedString)
      → is_valid_local_part (str lp) ≡ true
      → is_valid_domain (str d) ≡ true
      → initialize remove_accent cq lp d
        ≡ done (record { local_part = lp; domain = d; qualifier = cq })
  unfolding initialize
  initialize_valid lp d h k = ground arith

  -- The parts of an accepted address that fit into their arrays, as the constructor holds them.
  email_of_parts_valid :
      (local domain : List ℕ)
      → length local < 64
      → length domain < 255
      → is_valid_local_part local ≡ true
      → is_valid_domain domain ≡ true
      → (e : Email) × (email_of_parts remove_accent cq local (some domain) ≡ done e)
        × (str e.local_part ≡ local)
        × (str e.domain ≡ domain)
  unfolding email_of_parts
  email_of_parts_valid local domain short fits local_ok domain_ok =
      let (lp, made_lp, lp_str) =
        from_s-str 64 local short (is_valid_local_part-no_null local local_ok) in
      let (d, made_d, d_str) =
        from_s-str 255 domain fits (is_valid_domain-no_null domain domain_ok) in
      let valid : initialize remove_accent cq lp d
          ≡ done (record { local_part = lp; domain = d; qualifier = cq }) =
        initialize_valid lp d (ap is_valid_local_part lp_str ∙ local_ok)
          (ap is_valid_domain d_str ∙ domain_ok) in
      (
        record { local_part = lp; domain = d; qualifier = cq },
        ap (λ o. o >>= λ l. from_s 0 255 domain >>= λ r. initialize remove_accent cq l r) made_lp
            ∙ ap (λ o. o >>= λ r. initialize remove_accent cq lp r) made_d
            ∙ valid,
        lp_str,
        d_str,
      )

  email_of_parts_full :
      (local domain : List ℕ)
      → 64 ≤ length local
      → email_of_parts remove_accent cq local (some domain) ≡ throws runtime_error
  unfolding email_of_parts
  email_of_parts_full local domain h =
      ap (λ o. o >>= λ l. from_s 0 255 domain >>= λ r. initialize remove_accent cq l r)
        (from_s_full 64 local h)

  email_of_s_found :
      (s domain : List ℕ)
      → (break_at b'@' s).1 ≡ some domain
      → email_of_s remove_accent cq s
        ≡ email_of_parts remove_accent cq (break_at b'@' s).0 (some domain)
  unfolding email_of_s
  email_of_s_found s domain found = ap (email_of_parts remove_accent cq (break_at b'@' s).0) found

  -- An accepted address of at most 254 characters, with a local part of at most 63, makes an
  -- `Email`, and the text of that is the address again.
  pub email_str-email_of_s :
      (s : List ℕ)
      → is_valid_email_address s ≡ true
      → length (break_at b'@' s).0 < 64
      → length s ≤ 254
      → (e : Email) × (email_of_s remove_accent cq s ≡ done e) × (email_str e ≡ done s)
  email_str-email_of_s s h short total =
      let (domain, found, local_ok, domain_ok) = valid_parts s h in
      let split = break_at-append b'@' s domain found in
      let sizes : length s ≡ length (break_at b'@' s).0 + suc (length domain) =
        ap length split ∙ length-append (break_at b'@' s).0 (b'@' ∷ domain) in
      let (e, made, lp_str, d_str) =
        email_of_parts_valid (break_at b'@' s).0 domain short (omega arith) local_ok domain_ok in
      (
        e,
        email_of_s_found s domain found ∙ made,
        email_str_parts s (break_at b'@' s).0 domain e lp_str d_str split total,
      )

  -- An accepted address whose local part has 64 characters makes no `Email`: the array of the
  -- local part has no room for it, and the constructor throws.
  pub email_of_s_full :
      (s : List ℕ)
      → is_valid_email_address s ≡ true
      → length (break_at b'@' s).0 ≡ 64
      → email_of_s remove_accent cq s ≡ throws runtime_error
  email_of_s_full s h full =
      let (domain, found, local_ok, domain_ok) = valid_parts s h in
      email_of_s_found s domain found ∙ email_of_parts_full (break_at b'@' s).0 domain (omega arith)
