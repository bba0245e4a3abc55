-- ===== src/Text/Numbers.antt =====
-- cpp/src/s.hpp: `to_string` of an integer, with grouping or without, and `pad_left0`. A stream
-- writes an integer in decimal digits, behind a minus sign if it is negative.
use pensar.Base.{
  ℕ, zero, suc, ◌+◌, ◌-◌, ◌*◌, ◌/◌, ◌%◌, ◌^◌, ◌≤◌, ◌<◌, ◌≡◌, refl, ap, ◌∙◌, Bool, true, false,
  Option, some, List, [], ◌∷◌, ◌++◌, ltb, if◌then◌else◌, length, replicate, arith, Bool-cases, inl,
  inr,
}
use pensar.Text.{is_digit, only_digits, insert_grouping_char, pad, pad_left}
use pensar.Text.Grouping.{only_digits-insert_grouping_char}
use pensar.Text.Edges.{pad_ends}

-- `negsuc n` is -(n + 1).
pub data ℤ : Type 0 where
  pos : ℕ → ℤ
  negsuc : ℕ → ℤ

-- The digits of a number below 10 to the fuel and one more.
unfoldable pub digits : ℕ → ℕ → List ℕ
digits zero n = (48 + n % 10) ∷ []
digits (suc fuel) n =
    let front = digits fuel (n / 10) in
    if ltb n 10 then (48 + n) ∷ [] else front ++ ((48 + n % 10) ∷ [])

unfoldable pub print : ℤ → List ℕ
unfolding digits
print (pos n) = digits n n
print (negsuc n) = 45 ∷ digits (suc n) (suc n)

-- A negative number gets a minus sign before what the stream wrote.
unfoldable pub to_string : ℤ → Bool → ℕ → List ℕ
unfolding print
to_string (pos n) use_grouping_char grouping_char =
    let s = print (pos n) in if use_grouping_char then insert_grouping_char s grouping_char else s
to_string (negsuc n) use_grouping_char grouping_char =
    let s = 45 ∷ print (negsuc n) in
    if use_grouping_char then insert_grouping_char s grouping_char else s

unfoldable pub pad_left0 : ℤ → ℕ → Option (List ℕ)
unfolding to_string
pad_left0 number n = pad (to_string number false 44) 48 n pad_left

abbrev pub AllDigits : List ℕ → Type 0
AllDigits [] = Unit
AllDigits (c ∷ s) = (is_digit c ≡ true) × AllDigits s

-- A reader of decimal digits.
unfoldable pub read_decimal : ℕ → List ℕ → ℕ
read_decimal acc [] = acc
read_decimal acc (c ∷ s) = read_decimal (acc * 10 + (c - 48)) s

read_decimal-append :
    (acc : ℕ) (s t : List ℕ) → read_decimal acc (s ++ t) ≡ read_decimal (read_decimal acc s) t
unfolding read_decimal
read_decimal-append acc [] t = refl
read_decimal-append acc (c ∷ s) t = read_decimal-append (acc * 10 + (c - 48)) s t

AllDigits-append : (s t : List ℕ) → AllDigits s → AllDigits t → AllDigits (s ++ t)
AllDigits-append [] t h k = k
AllDigits-append (c ∷ s) t h k = (h.0, AllDigits-append s t h.1 k)

is_digit-digit : (d : ℕ) → d < 10 → is_digit (48 + d) ≡ true
unfolding is_digit
is_digit-digit d h = ground arith

digits-AllDigits : (fuel n : ℕ) → AllDigits (digits fuel n)
unfolding digits
digits-AllDigits zero n = (is_digit-digit (n % 10) (omega arith), tt)
digits-AllDigits (suc fuel) n = elim (Bool-cases (ltb n 10)) [
  | inl small ↦ rw small (is_digit-digit n (ground arith), tt)
  | inr big ↦ rw big (
      AllDigits-append (digits fuel (n / 10)) ((48 + n % 10) ∷ []) (digits-AllDigits fuel (n / 10))
        (is_digit-digit (n % 10) (omega arith), tt))
]

read_decimal-digits : (fuel n : ℕ) → n ≤ fuel → read_decimal 0 (digits fuel n) ≡ n
unfolding digits read_decimal
read_decimal-digits zero n h = omega arith
read_decimal-digits (suc fuel) n h = elim (Bool-cases (ltb n 10)) [
  | inl small ↦ rw small (omega arith)
  | inr big ↦ rw big (
      read_decimal-append 0 (digits fuel (n / 10)) ((48 + n % 10) ∷ [])
      ∙ ground (arith, read_decimal-digits fuel (n / 10)))
]

only_digits-AllDigits : (s : List ℕ) → AllDigits s → only_digits s ≡ s
unfolding only_digits
only_digits-AllDigits [] h = refl
only_digits-AllDigits (c ∷ s) h = ground (arith, only_digits-AllDigits s)

-- A number that is not negative is read back from its text, with grouping or without: the digits of
-- the text are its decimal digits, whatever the grouping character is, if it is no digit.
pub read_decimal-to_string :
    (n grouping_char : ℕ) (use_grouping_char : Bool)
    → is_digit grouping_char ≡ false
    → read_decimal 0 (only_digits (to_string (pos n) use_grouping_char grouping_char)) ≡ n
unfolding to_string
read_decimal-to_string n g true h =
    ap (read_decimal 0) (
      only_digits-insert_grouping_char (digits n n) g h
      ∙ only_digits-AllDigits (digits n n) (digits-AllDigits n n))
    ∙ read_decimal-digits n n (omega arith)
read_decimal-to_string n g false h =
    ap (read_decimal 0) (only_digits-AllDigits (digits n n) (digits-AllDigits n n))
    ∙ read_decimal-digits n n (omega arith)

zeros-AllDigits : (k : ℕ) → AllDigits (replicate k 48)
zeros-AllDigits zero = tt
zeros-AllDigits (suc k) = (is_digit-digit 0 (omega arith), zeros-AllDigits k)

read_decimal-zeros : (k : ℕ) → read_decimal 0 (replicate k 48) ≡ 0
unfolding read_decimal
read_decimal-zeros zero = refl
read_decimal-zeros (suc k) = read_decimal-zeros k

-- A number that is not negative, padded with zeros, has a text of digits that is read as the number.
pub pad_left0-digits :
    (n width : ℕ)
    → width < 2 ^ 31
    → (s : List ℕ) × (pad_left0 (pos n) width ≡ some s) × AllDigits s × (read_decimal 0 s ≡ n)
unfolding pad_left0
pad_left0-digits n width h =
    let zeros : List ℕ = replicate (width - length (digits n n)) 48 in
    (
      zeros ++ digits n n,
      (pad_ends (digits n n) 48 width (omega arith)).1 ∙ ground arith,
      AllDigits-append zeros (digits n n) (zeros-AllDigits (width - length (digits n n)))
          (digits-AllDigits n n),
      read_decimal-append 0 zeros (digits n n)
          ∙ rw (read_decimal-zeros (width - length (digits n n)))
              (read_decimal-digits n n (omega arith)),
    )
