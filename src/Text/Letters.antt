-- ===== src/Text/Letters.antt =====
-- cpp/src/s.hpp: the functions that go over the characters of a string one by one, where characters
-- are not wide and the locale is that of C; and the copies that pad and remove.
use pensar.Base.{
  ℕ, suc, ◌+◌, ◌-◌, ◌<◌, ◌≡◌, refl, sym, ap, ap₂, ◌∙◌, Bool, false, ◌&&◌, ◌||◌, Option, some, ◌↔◌,
  append_assoc, append-nil, List, [], ◌∷◌, ◌++◌, leb, if◌then◌else◌, length, arith,
}
use pensar.Text.{is_digit, Side, pad, replace_loop}
use pensar.Text.Replace.{occurs, replace_loop_ends}

unfoldable is_upper : ℕ → Bool
is_upper c = leb b'A' c && leb c b'Z'

unfoldable is_lower : ℕ → Bool
is_lower c = leb b'a' c && leb c b'z'

-- `std::toupper`
unfoldable upper_char : ℕ → ℕ
unfolding is_lower
upper_char c = if is_lower c then c - 32 else c

-- `std::tolower`
unfoldable lower_char : ℕ → ℕ
unfolding is_upper
lower_char c = if is_upper c then c + 32 else c

unfoldable to_upper : List ℕ → List ℕ
unfolding upper_char
to_upper [] = []
to_upper (c ∷ s) = upper_char c ∷ to_upper s

unfoldable to_lower : List ℕ → List ℕ
unfolding lower_char
to_lower [] = []
to_lower (c ∷ s) = lower_char c ∷ to_lower s

unfoldable pub upper : List ℕ → List ℕ
unfolding to_upper
upper s = to_upper s

unfoldable pub lower : List ℕ → List ℕ
unfolding to_lower
lower s = to_lower s

-- The characters from the last to the first.
unfoldable reverse : List ℕ → List ℕ
reverse [] = []
reverse (c ∷ s) = reverse s ++ (c ∷ [])

unfoldable is_alnum : ℕ → Bool
unfolding is_digit is_upper is_lower
is_alnum c = is_digit c || (is_upper c || is_lower c)

unfoldable only_alpha_numeric : List ℕ → List ℕ
unfolding is_alnum
only_alpha_numeric [] = []
only_alpha_numeric (c ∷ s) =
    let rest = only_alpha_numeric s in if is_alnum c then c ∷ rest else rest

unfoldable pad_copy : List ℕ → ℕ → ℕ → Side → Option (List ℕ)
unfolding pad
pad_copy s c n side = pad s c n side

-- The loop that erases, which is that of `replace_substr` with nothing in place of the string.
unfoldable remove : ℕ → List ℕ → List ℕ → Option (List ℕ)
unfolding replace_loop
remove fuel s target = replace_loop fuel s [] target

unfoldable copy_remove : ℕ → List ℕ → List ℕ → Option (List ℕ)
unfolding remove
copy_remove fuel s target = remove fuel s target

lower-upper_char : (c : ℕ) → lower_char (upper_char c) ≡ lower_char c
unfolding lower_char upper_char is_upper is_lower
lower-upper_char c = ground arith

upper-lower_char : (c : ℕ) → upper_char (lower_char c) ≡ upper_char c
unfolding lower_char upper_char is_upper is_lower
upper-lower_char c = ground arith

lower-upper : (s : List ℕ) → lower (upper s) ≡ lower s
unfolding lower upper to_lower to_upper
lower-upper [] = refl
lower-upper (c ∷ s) = ap₂ ◌∷◌ (lower-upper_char c) (lower-upper s)

upper-lower : (s : List ℕ) → upper (lower s) ≡ upper s
unfolding lower upper to_lower to_upper
upper-lower [] = refl
upper-lower (c ∷ s) = ap₂ ◌∷◌ (upper-lower_char c) (upper-lower s)

-- Two strings have the same upper case if and only if they have the same lower case: the two
-- functions compare strings without regard to case alike.
pub upper-iff-lower : (s t : List ℕ) → (upper s ≡ upper t) ↔ (lower s ≡ lower t)
upper-iff-lower s t = (
  λ same. sym (lower-upper s) ∙ ap lower same ∙ lower-upper t,
  λ same. sym (upper-lower s) ∙ ap upper same ∙ upper-lower t,
)

reverse-append : (s t : List ℕ) → reverse (s ++ t) ≡ reverse t ++ reverse s
unfolding reverse
reverse-append [] t = sym (append-nil (reverse t))
reverse-append (c ∷ s) t =
    ap (λ r. r ++ (c ∷ [])) (reverse-append s t) ∙ append_assoc (reverse t) (reverse s) (c ∷ [])

-- A string reversed twice is the string.
reverse-reverse : (s : List ℕ) → reverse (reverse s) ≡ s
unfolding reverse
reverse-reverse [] = refl
reverse-reverse (c ∷ s) = reverse-append (reverse s) (c ∷ []) ∙ ap (◌∷◌ c) (reverse-reverse s)

-- A string that is not empty is removed until it does not occur, and the loop ends.
remove_ends :
    (s target : List ℕ)
    → 0 < length s
    → (t : List ℕ) × (copy_remove (suc (length target)) s target ≡ some t) × (occurs s t ≡ false)
unfolding remove copy_remove
remove_ends s target long = replace_loop_ends (suc (length target)) s [] target long (omega arith)
