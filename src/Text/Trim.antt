-- ===== src/Text/Trim.antt =====
-- `trim`: what it takes off, and what it leaves.
use pensar.Base.{
  ℕ, ◌≡◌, refl, ap, ◌∙◌, Bool, true, false, ◌&&◌, List, [], ◌∷◌, ◌++◌, arith, if◌then◌else◌,
  Bool-cases, inl, inr, is_empty,
}
use pensar.Text.{is_space, ltrim, rtrim, trim}

abbrev pub all_spaces : List ℕ → Bool
all_spaces [] = true
all_spaces (x ∷ xs) = is_space x && all_spaces xs

abbrev pub starts_with_space : List ℕ → Bool
starts_with_space [] = false
starts_with_space (x ∷ xs) = is_space x

abbrev pub ends_with_space : List ℕ → Bool
ends_with_space [] = false
ends_with_space (x ∷ xs) = if is_empty xs then is_space x else ends_with_space xs

ltrim-cut :
    (s : List ℕ)
    → (front : List ℕ) × (s ≡ front ++ ltrim s)
      × (all_spaces front ≡ true)
      × (starts_with_space (ltrim s) ≡ false)
unfolding ltrim
ltrim-cut [] = ([], refl, refl, refl)
ltrim-cut (x ∷ xs) =
    let (front, whole, spaces, start) = ltrim-cut xs in
    elim (Bool-cases (is_space x)) [
      | inl e ↦ rw e (x ∷ front, ap (◌∷◌ x) whole, ground (arith, e, spaces), start)
      | inr e ↦ rw e ([], refl, refl, e)
    ]

is_empty-nil : (xs : List ℕ) → is_empty xs ≡ true → xs ≡ []
is_empty-nil [] h = refl
is_empty-nil (x ∷ xs) h = cc

rtrim-cut :
    (s : List ℕ)
    → (back : List ℕ) × (s ≡ rtrim s ++ back)
      × (all_spaces back ≡ true)
      × (ends_with_space (rtrim s) ≡ false)
unfolding rtrim
rtrim-cut [] = ([], refl, refl, refl)
rtrim-cut (x ∷ xs) =
    let (back, whole, spaces, end) = rtrim-cut xs in
    elim (Bool-cases (is_empty (rtrim xs) && is_space x)) [
      | inl e ↦
          let nothing : rtrim xs ≡ [] = is_empty-nil (rtrim xs) (ground (arith, e)) in
          rw e (
            x ∷ back,
            ap (◌∷◌ x) (whole ∙ ap (λ t. t ++ back) nothing),
            ground (arith, e, spaces),
            refl,
          )
      | inr e ↦ rw e (back, ap (◌∷◌ x) whole, spaces, ground (arith, e, end))
    ]

ltrim-ends : (s : List ℕ) → ends_with_space s ≡ false → ends_with_space (ltrim s) ≡ false
unfolding ltrim
ltrim-ends [] h = refl
ltrim-ends (x ∷ []) h = ground (arith, h)
ltrim-ends (x ∷ y ∷ xs) h = elim (Bool-cases (is_space x)) [
  | inl e ↦ rw e (ltrim-ends (y ∷ xs) h)
  | inr e ↦ rw e h
]

-- The string is spaces, the trimmed string, and spaces; and the trimmed string neither starts
-- nor ends with a space.
pub trim-cut :
    (s : List ℕ)
    → (front back : List ℕ) × (s ≡ front ++ trim s ++ back)
      × (all_spaces front ≡ true)
      × (all_spaces back ≡ true)
      × (starts_with_space (trim s) ≡ false)
      × (ends_with_space (trim s) ≡ false)
unfolding trim
trim-cut s =
    let (back, whole, back_spaces, end) = rtrim-cut s in
    let (front, rest, front_spaces, start) = ltrim-cut (rtrim s) in
    (
      front,
      back,
      whole ∙ ap (λ t. t ++ back) rest,
      front_spaces,
      back_spaces,
      start,
      ltrim-ends (rtrim s) end,
    )
