-- ===== src/RandomFileName/Strings.antt =====
-- What a random string is made of, and when it is not made.
use pensar.Base.{
  ℕ, zero, suc, ◌+◌, ◌-◌, ◌%◌, ◌^◌, ◌≤◌, ◌<◌, ◌≡◌, refl, ◌⊎◌, inl, inr, Bool, true, false, ◌&&◌,
  ◌||◌, List, ◌∷◌, leb, ◌==◌, length, arith, Bool-cases,
}
use pensar.Base.Predicates.{All}
use pensar.Base.Outcome.{done, throws, runtime_error}
use pensar.RandomFileName.{char_at, is_number, redraw, draw_chars, random_string}

abbrev pub is_alnum : ℕ → Bool
is_alnum c = (leb 48 c && leb c 57) || ((leb 65 c && leb c 90) || (leb 97 c && leb c 122))

-- A draw below 62 gives a letter or a digit: each of them is evaluated.
all_alnum : ℕ → Bool
all_alnum zero = true
all_alnum (suc n) = is_alnum (char_at n) && all_alnum n

all_alnum-lt : (n d : ℕ) → all_alnum n ≡ true → d < n → is_alnum (char_at d) ≡ true
unfolding all_alnum
all_alnum-lt zero d h lt = absurd (omega arith)
all_alnum-lt (suc n) d h lt = ground (arith, all_alnum-lt n d)

char_at_alnum : (d : ℕ) → d < 62 → is_alnum (char_at d) ≡ true
unfolding all_alnum char_at
char_at_alnum d lt = all_alnum-lt 62 d refl lt

module _ (draws : ℕ → ℕ) (bounded : (k : ℕ) → draws k < 62) where
  draw_chars-All : (i made : ℕ) → All (λ c. is_alnum c ≡ true) (draw_chars draws i made)
  unfolding draw_chars
  draw_chars-All zero made = tt
  draw_chars-All (suc i) made =
      (char_at_alnum (draws made) (bounded made), draw_chars-All i (suc made))

  length-draw_chars : (i made : ℕ) → length (draw_chars draws i made) ≡ i
  unfolding draw_chars
  length-draw_chars zero made = refl
  length-draw_chars (suc i) made = omega (arith, length-draw_chars i (suc made))

  -- The loop ends with a character that was drawn and is no number, or all its draws were numbers.
  redraw-cases :
      (count made k : ℕ)
      → made ≡ suc k
      → ((c m : ℕ) × (redraw draws count made (char_at (draws k)) ≡ done (c, m))
          × (is_number c ≡ false)
          × (is_alnum c ≡ true))
        ⊎ ((redraw draws count made (char_at (draws k)) ≡ throws runtime_error)
            × ((j : ℕ) → k ≤ j → j ≤ k + count → is_number (char_at (draws j)) ≡ true))
  unfolding redraw
  redraw-cases zero made k next = elim (Bool-cases (is_number (char_at (draws k)))) [
    | inl number ↦
        inr (rw number refl, λ j low high. let same : j ≡ k = omega arith in rw same number)
    | inr letter ↦
        inl (char_at (draws k), made, rw letter refl, letter, char_at_alnum (draws k) (bounded k))
  ]
  redraw-cases (suc count) made k next = elim (Bool-cases (is_number (char_at (draws k)))) [
    | inl number ↦ elim (redraw-cases count (suc made) made refl) [
      | inl (c, m, e, letter, alnum) ↦ inl (c, m, rw number e, letter, alnum)
      | inr (e, numbers) ↦ inr (
        rw number e,
        λ j low high. elim (Bool-cases (j == k)) [
          | inl same ↦ let first : j ≡ k = ground arith in rw first number
          | inr other ↦ numbers j (ground arith) (omega arith)
        ],
      )
    ]
    | inr letter ↦
        inl (char_at (draws k), made, rw letter refl, letter, char_at_alnum (draws k) (bounded k))
  ]

  -- For a length above 0, the string has that length, its first character is a letter, and all are
  -- letters and digits; it is not made, and the call throws, only if the first thousand draws are
  -- all digits.
  random_string-cases :
      (len : ℕ)
      → 0 < len
      → len < 2 ^ 64
      → ((s : List ℕ) × (c : ℕ) × (random_string draws len ≡ done (c ∷ s))
          × (length (c ∷ s) ≡ len)
          × (is_number c ≡ false)
          × All (λ c. is_alnum c ≡ true) (c ∷ s))
        ⊎ ((random_string draws len ≡ throws runtime_error)
            × ((j : ℕ) → j < 1000 → is_number (char_at (draws j)) ≡ true))
  unfolding random_string
  random_string-cases len some small = elim (redraw-cases 999 1 0 refl) [
    | inl (c, m, e, letter, alnum) ↦ inl (
      draw_chars draws ((len + 2 ^ 64 - 1) % 2 ^ 64) m,
      c,
      rw e refl,
      omega (arith, length-draw_chars ((len + 2 ^ 64 - 1) % 2 ^ 64) m),
      letter,
      (alnum, draw_chars-All ((len + 2 ^ 64 - 1) % 2 ^ 64) m),
    )
    | inr (e, numbers) ↦ inr (rw e refl, λ j lt. numbers j (omega arith) (omega arith))
  ]

  -- When one of the first thousand draws gives a letter and the length is above 0, a string of that
  -- length is made; its first character is a letter, and all are letters and digits.
  pub random_string-letter :
      (len k : ℕ)
      → 0 < len
      → len < 2 ^ 64
      → k < 1000
      → is_number (char_at (draws k)) ≡ false
      → (s : List ℕ) × (c : ℕ) × (random_string draws len ≡ done (c ∷ s))
        × (length (c ∷ s) ≡ len)
        × (is_number c ≡ false)
        × All (λ c. is_alnum c ≡ true) (c ∷ s)
  random_string-letter len k some small lt letter = elim (random_string-cases len some small) [
    | inl made ↦ made
    | inr (_, numbers) ↦ absurd (cc (letter, numbers k lt))
  ]
