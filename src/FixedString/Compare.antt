-- ===== src/FixedString/Compare.antt =====
-- The comparisons, by the key that each character is compared by.
use pensar.Base.{
  ℕ, ◌≡◌, refl, ◌↔◌, true, false, not, List, [], ◌∷◌, map, arith, length, ltb, leb, ◌==◌,
  if◌then◌else◌,
}
use pensar.FixedString.{
  FixedString, Sensitivity, tolower, char_equal, char_less, not_equal, greater, less_equal,
  greater_equal, until_null, str, str_length, eq_strlen, fixed_equal, fixed_less, equal_loop,
}

module _ (remove_accent : ℕ → ℕ) (s : Sensitivity) where
  -- What a character is compared by: without its accent and in lower case, as the flags say.
  unfoldable pub key : ℕ → ℕ
  unfolding tolower
  key c =
      let plain = if s.to_accent then c else remove_accent c in
      if s.to_case then plain else tolower plain

  char_equal-key : (c d : ℕ) → char_equal remove_accent s c d ≡ (key c == key d)
  unfolding char_equal key
  char_equal-key c d = ground arith

  char_less-key : (c d : ℕ) → char_less remove_accent s c d ≡ ltb (key c) (key d)
  unfolding char_less key
  char_less-key c d = ground arith

  -- The six comparisons of characters are those of the keys, as numbers.
  pub comparisons-key :
      (c d : ℕ)
      → (char_equal remove_accent s c d ≡ (key c == key d))
        × (not_equal remove_accent s c d ≡ not (key c == key d))
        × (char_less remove_accent s c d ≡ ltb (key c) (key d))
        × (greater remove_accent s c d ≡ ltb (key d) (key c))
        × (less_equal remove_accent s c d ≡ leb (key c) (key d))
        × (greater_equal remove_accent s c d ≡ leb (key d) (key c))
  unfolding not_equal greater less_equal greater_equal
  comparisons-key c d =
      rw (char_equal-key c d, char_less-key c d)
        (refl, refl, refl, ground arith, ground arith, ground arith)

  equal_loop→keys :
      (cs ds : List ℕ)
      → length (until_null cs) ≡ length (until_null ds)
      → equal_loop remove_accent s (length (until_null cs)) cs ds ≡ true
      → map key (until_null cs) ≡ map key (until_null ds)
  unfolding equal_loop until_null
  equal_loop→keys [] [] e h = refl
  equal_loop→keys [] (d ∷ ds) e h = ground arith
  equal_loop→keys (c ∷ cs) [] e h = ground arith
  equal_loop→keys (c ∷ cs) (d ∷ ds) e h = ground (arith, char_equal-key c d, equal_loop→keys cs ds)

  keys→equal_loop :
      (cs ds : List ℕ)
      → map key (until_null cs) ≡ map key (until_null ds)
      → (length (until_null cs) ≡ length (until_null ds))
        × (equal_loop remove_accent s (length (until_null cs)) cs ds ≡ true)
  unfolding equal_loop until_null
  keys→equal_loop [] [] h = (refl, refl)
  keys→equal_loop [] (d ∷ ds) h = ground arith
  keys→equal_loop (c ∷ cs) [] h = ground arith
  keys→equal_loop (c ∷ cs) (d ∷ ds) h = ground (arith, char_equal-key c d, keys→equal_loop cs ds)

  -- `operator==` holds exactly when the two strings, up to their null characters, have the same
  -- keys in the same order.
  pub fixed_equal-iff_keys :
      (f g : FixedString)
      → (fixed_equal remove_accent s f g ≡ true) ↔ (map key (str f) ≡ map key (str g))
  unfolding fixed_equal eq_strlen str_length str
  fixed_equal-iff_keys f g = (
    λ h. equal_loop→keys f.chars g.chars (ground arith) (ground arith),
    λ h. ground (arith, keys→equal_loop f.chars g.chars h),
  )

  -- `operator<` is no order of the strings: two that begin with the same key are never ordered
  -- either way, whatever follows.
  pub fixed_less_same_first :
      (c d : ℕ) (cs ds : List ℕ)
      → key c ≡ key d
      → let f : FixedString = record { chars = c ∷ cs } in
        let g : FixedString = record { chars = d ∷ ds } in
        (fixed_less remove_accent s f g ≡ false) × (fixed_less remove_accent s g f ≡ false)
  unfolding fixed_less
  fixed_less_same_first c d cs ds e = rw (char_less-key c d, char_less-key d c) (ground arith)
