-- ===== src/Email/Validity.antt =====
-- The checks of an address against a description by labels.
use native.Mathlib.Nat.{zero-add}
use pensar.Base.{
  ℕ, suc, ◌≡◌, refl, ap, ap₂, ◌∙◌, sym, Bool, true, false, ◌&&◌, ◌||◌, not, Option, none, some,
  List, [], ◌∷◌, arith, length, ◌==◌, if◌then◌else◌, Bool-cases, inl, inr, leb, ltb, is_empty,
  get_or, ◌-◌,
}
use pensar.Base.Search.{cons_label, split_on}
use pensar.Email.{
  is_valid_label, label_loop, is_local_char, local_loop, is_valid_local_part, is_valid_domain,
  check_tld, back, is_letter, is_digit, is_label_char, all_label_chars, all_letters,
}
use pensar.Email.Labels.{all_labels, last_label, label_loop-split_on, after_last-last_label}

abbrev pub all_chars : (ℕ → Bool) → List ℕ → Bool
all_chars p [] = true
all_chars p (c ∷ cs) = p c && all_chars p cs

-- A label of the local part: not empty, and of the characters that are allowed.
abbrev pub is_atom : List ℕ → Bool
is_atom label = not (is_empty label) && all_chars is_local_char label

-- The first label goes on from a character that was no dot, if `prev_dot` is false.
abbrev first_atoms : Bool → List (List ℕ) → Bool
first_atoms prev_dot [] = true
first_atoms prev_dot (l ∷ ls) =
    (not prev_dot || not (is_empty l)) && all_chars is_local_char l && all_labels is_atom ls

-- Does the text, after a character of which `prev_dot` says if it was a dot, end in a dot?
ends_in_dot : Bool → List ℕ → Bool
ends_in_dot prev_dot [] = prev_dot
ends_in_dot prev_dot (x ∷ xs) = ends_in_dot (x == b'.') xs

ends_in_dot-back :
    (p : Bool) (x : ℕ) (xs : List ℕ) → ends_in_dot p (x ∷ xs) ≡ (back (x ∷ xs) == b'.')
unfolding ends_in_dot
ends_in_dot-back p x [] = ground arith
ends_in_dot-back p x (y ∷ ys) =
    let last : suc (suc (length ys) - 1) ≡ suc (suc (length ys)) - 1 = omega arith in
    ends_in_dot-back (x == b'.') y ys ∙ ap (λ i. get_or (x ∷ y ∷ ys) i 0 == b'.') last

first_atoms-cons :
    (p : Bool) (x : ℕ) (ls : List (List ℕ))
    → (x == b'.') ≡ false
    → first_atoms p (cons_label x ls) ≡ (is_local_char x && first_atoms false ls)
first_atoms-cons true x [] e = ground arith
first_atoms-cons false x [] e = ground arith
first_atoms-cons true x (l ∷ ls) e = ground arith
first_atoms-cons false x (l ∷ ls) e = ground arith

first_atoms-true : (ls : List (List ℕ)) → first_atoms true ls ≡ all_labels is_atom ls
first_atoms-true [] = refl
first_atoms-true (l ∷ ls) = ground arith

local_loop-first_atoms :
    (p : Bool) (xs : List ℕ)
    → (local_loop p xs && not (ends_in_dot p xs)) ≡ first_atoms p (split_on b'.' xs)
unfolding local_loop ends_in_dot split_on
local_loop-first_atoms p [] = ground arith
local_loop-first_atoms p (x ∷ xs) = elim (Bool-cases (x == b'.')) [
  | inl dot ↦
      rw dot (ground (arith, local_loop-first_atoms true xs, first_atoms-true (split_on b'.' xs)))
  | inr other ↦ rw other (
      ground
        (arith, local_loop-first_atoms false xs, first_atoms-cons p x (split_on b'.' xs) other))
]

starts_with_dot :
    (x : ℕ) (xs : List ℕ) → (x == b'.') ≡ true → all_labels is_atom (split_on b'.' (x ∷ xs)) ≡ false
unfolding split_on
starts_with_dot x xs e = rw e

first_atoms-start :
    (x : ℕ) (xs : List ℕ)
    → (x == b'.') ≡ false
    → first_atoms false (split_on b'.' (x ∷ xs)) ≡ all_labels is_atom (split_on b'.' (x ∷ xs))
unfolding split_on
first_atoms-start x xs e = rw e (
    first_atoms-cons false x (split_on b'.' xs) e
    ∙ sym (first_atoms-cons true x (split_on b'.' xs) e)
    ∙ first_atoms-true (cons_label x (split_on b'.' xs)))

-- A local part is accepted exactly when it has 1 to 64 characters and each of its parts between
-- dots is not empty and has allowed characters only.
pub is_valid_local_part-labels :
    (lp : List ℕ)
    → is_valid_local_part lp
      ≡ (not (is_empty lp) && (leb (length lp) 64 && all_labels is_atom (split_on b'.' lp)))
unfolding is_valid_local_part
is_valid_local_part-labels [] = refl
is_valid_local_part-labels (x ∷ xs) = ground (
  arith,
  local_loop-first_atoms false (x ∷ xs),
  ends_in_dot-back false x xs,
  starts_with_dot x xs,
  first_atoms-start x xs,
)

-- A letter or a digit of ASCII, or a hyphen.
abbrev pub is_letter_of : ℕ → Bool
is_letter_of c = (leb 65 c && leb c 90) || (leb 97 c && leb c 122)

abbrev pub is_ldh : ℕ → Bool
is_ldh c = is_letter_of c || ((leb 48 c && leb c 57) || c == 45)

-- 1 to 63 letters, digits and hyphens, of which a hyphen is neither the first nor the last.
abbrev pub is_label : List ℕ → Bool
is_label l =
    leb 1 (length l)
    && (leb (length l) 63
        && (not (get_or l 0 0 == 45)
            && (not (get_or l (length l - 1) 0 == 45) && all_chars is_ldh l)))

abbrev pub is_top_level : List ℕ → Bool
is_top_level l = leb 2 (length l) && all_chars is_letter_of l

all_label_chars-all_chars : (l : List ℕ) → all_label_chars l ≡ all_chars is_ldh l
unfolding all_label_chars is_label_char is_letter is_digit
all_label_chars-all_chars [] = refl
all_label_chars-all_chars (c ∷ l) = ground (arith, all_label_chars-all_chars l)

all_letters-all_chars : (l : List ℕ) → all_letters l ≡ all_chars is_letter_of l
unfolding all_letters is_letter
all_letters-all_chars [] = refl
all_letters-all_chars (c ∷ l) = ground (arith, all_letters-all_chars l)

is_valid_label-is_label : (l : List ℕ) → is_valid_label l ≡ is_label l
unfolding is_valid_label
is_valid_label-is_label l = rw (all_label_chars-all_chars l) (ground arith)

check_tld-is_top_level : (l : List ℕ) → check_tld l ≡ is_top_level l
unfolding check_tld
check_tld-is_top_level l = rw (all_letters-all_chars l) (ground arith)

pub all_labels-is_label :
    (ls : List (List ℕ)) → all_labels is_valid_label ls ≡ all_labels is_label ls
all_labels-is_label [] = refl
all_labels-is_label (l ∷ ls) = ap₂ ◌&&◌ (is_valid_label-is_label l) (all_labels-is_label ls)

-- The description of a domain: 1 to 255 characters, at least two labels, each of 1 to 63 letters,
-- digits and hyphens with no hyphen at its ends, and a last label of two letters or more.
unfoldable pub is_domain : List ℕ → Bool
is_domain domain =
    let labels = split_on b'.' domain in
    not (is_empty domain)
    && (leb (length domain) 255
        && (all_labels is_label labels
            && (leb 2 (length labels) && is_top_level (last_label labels))))

-- The tests of `is_valid_domain`, in the order of the code and in that of the description.
domain_tests :
    (none_left good tld : Bool) (size count : ℕ) (loop : Option ℕ)
    → loop ≡ (if good then some count else none)
    → (if none_left || ltb 255 size
        then false
        else elim loop [ none ↦ false | some k ↦ if ltb k 2 then false else tld ])
      ≡ (not none_left && (leb size 255 && (good && (leb 2 count && tld))))
domain_tests none_left good tld size count loop e = ground arith

-- A domain is accepted exactly when it has 1 to 255 characters and at least two labels between its
-- dots, each of 1 to 63 ASCII letters, digits and hyphens with no hyphen at its ends, and its last
-- label has two characters or more, all of them letters; so the fuel of the loop is enough.
pub is_valid_domain-labels : (domain : List ℕ) → is_valid_domain domain ≡ is_domain domain
unfolding is_valid_domain is_domain
is_valid_domain-labels domain =
    (λ i.
      if is_empty domain || ltb 255 (length domain)
      then false
      else elim (label_loop (suc (length domain)) domain 0) [
        | none ↦ false
        | some k ↦ if ltb k 2 then false else check_tld (after_last-last_label b'.' domain i)
      ])
    ∙ domain_tests (is_empty domain) (all_labels is_valid_label labels)
        (check_tld (last_label labels)) (length domain) (length labels)
        (label_loop (suc (length domain)) domain 0)
        (rw (label_loop-split_on (suc (length domain)) domain 0 (omega arith), zero-add))
    ∙ ap₂
        (λ good tld.
          not (is_empty domain)
          && (leb (length domain) 255 && (good && (leb 2 (length labels) && tld))))
        (all_labels-is_label labels) (check_tld-is_top_level (last_label labels))
  where
    labels : List (List ℕ)
    labels = split_on b'.' domain
