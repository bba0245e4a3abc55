-- ===== src/Email/Examples.antt =====
-- Runs of the checks of an address, and their theorems at concrete addresses.
use pensar.Base.{arith, ℕ, ◌≡◌, refl, true, false, List, [], ◌∷◌, ◌++◌, replicate}
use pensar.Base.Outcome.{done}
use pensar.Base.Search.{break_at}
use pensar.Email.{
  Email, business, is_valid_local_part, is_valid_domain, is_valid_email_address, email_of_s,
  email_str,
}
use pensar.Email.Validity.{is_domain, is_valid_domain-labels}
use pensar.Email.Construction.{email_str-email_of_s}

-- `a.b` and `c.io`
abbrev local : List ℕ
local = b'a' ∷ b'.' ∷ b'b' ∷ []

abbrev host : List ℕ
host = b'c' ∷ b'.' ∷ b'i' ∷ b'o' ∷ []

abbrev plain : ℕ → ℕ
plain c = c

two_dots : is_valid_local_part (b'a' ∷ b'.' ∷ b'.' ∷ b'b' ∷ []) ≡ false
unfolding is_valid_local_part
two_dots = refl

accepted : is_valid_email_address (local ++ b'@' ∷ host) ≡ true
unfolding is_valid_email_address
accepted = refl

is_valid_domain-labels_example : is_valid_domain host ≡ is_domain host
is_valid_domain-labels_example = is_valid_domain-labels host

email_str-email_of_s_example :
    (e : Email) × (email_of_s plain business (local ++ b'@' ∷ host) ≡ done e)
    × (email_str e ≡ done (local ++ b'@' ∷ host))
unfolding break_at
email_str-email_of_s_example =
    email_str-email_of_s plain business (local ++ b'@' ∷ host) accepted (omega arith) (omega arith)

-- A local part of 64 characters.
abbrev long : List ℕ
long = replicate 64 b'a' ++ b'@' ∷ host

long_accepted : is_valid_email_address long ≡ true
unfolding is_valid_email_address
long_accepted = refl
