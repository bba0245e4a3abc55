-- ===== src/FixedString/Append.antt =====
-- `operator+=`.
use pensar.Base.{
  if◌then◌else◌, ◌==◌, ◌≤◌, ℕ, ◌+◌, ◌<◌, ◌≡◌, refl, ap, ◌∙◌, sym, List, [], ◌∷◌, ◌++◌, arith,
  length, take, drop, set, length-append, length-drop, length-set, append_assoc,
}
use pensar.FixedString.{
  FixedString, until_null, str, str_length, memcpy, append, appended, too_long, overruns,
}
use pensar.FixedString.Copy.{until_null-set}

-- The characters up to the null character stand at the front.
take-until_null : (cs : List ℕ) → take (length (until_null cs)) cs ≡ until_null cs
unfolding until_null
take-until_null [] = refl
take-until_null (c ∷ cs) = ground (arith, take-until_null cs)

until_null_idem : (xs : List ℕ) → until_null (until_null xs) ≡ until_null xs
unfolding until_null
until_null_idem [] = refl
until_null_idem (x ∷ xs) = ground (arith, until_null_idem xs)

until_null-append :
    (xs ys : List ℕ) → until_null (until_null xs ++ until_null ys) ≡ until_null xs ++ until_null ys
unfolding until_null
until_null-append [] ys = until_null_idem ys
until_null-append (x ∷ xs) ys = ground (arith, until_null_idem ys, until_null-append xs ys)

module _ (max : ℕ) (f g : FixedString) (sized : length f.chars ≡ max) where
  joined : List ℕ
  joined = memcpy (str_length f) (str g) f.chars

  rest : List ℕ
  rest = drop (str_length f + str_length g) f.chars

  joined-split : joined ≡ (str f ++ str g) ++ rest
  unfolding joined rest memcpy str_length
  joined-split =
      ap (λ t. t ++ (str g ++ rest)) (unfold str in take-until_null f.chars)
      ∙ sym (append_assoc (str f) (str g) rest)

  total : length (str f ++ str g) ≡ str_length f + str_length g
  unfolding str_length
  total = length-append (str f) (str g)

  length-joined : str_length f + str_length g < max → length joined ≡ max
  unfolding rest
  length-joined h = omega (
    arith,
    ap length joined-split,
    length-append (str f ++ str g) rest,
    total,
    length-drop (str_length f + str_length g) f.chars,
  )

  str-joined :
      str_length f + str_length g < max
      → until_null (set joined (str_length f + str_length g) 0) ≡ str f ++ str g
  unfolding rest
  str-joined h =
      (λ i. until_null (set (joined-split i) (sym total i) 0))
      ∙ until_null-set (str f ++ str g) rest
          (omega (arith, length-drop (str_length f + str_length g) f.chars))
      ∙ (unfold str in until_null-append f.chars g.chars)

  -- `operator+=` of two strings that together leave room for the null character gives the one
  -- and then the other, in an array of the same size.
  pub append-str :
      str_length f + str_length g < max
      → (h : FixedString) × (append max f g ≡ appended h)
        × (length h.chars ≡ max)
        × (str h ≡ str f ++ str g)
  append-str h = (
    record { chars = set joined (str_length f + str_length g) 0 },
    unfold append joined in ground arith,
    length-set joined (str_length f + str_length g) 0 ∙ length-joined h,
    unfold str in str-joined h,
  )

  -- `operator+=` of two strings that leave no room for the null character throws where they are
  -- longer than the array; where they fill it exactly, it writes the null character behind it.
  pub append_outside :
      max ≤ str_length f + str_length g
      → append max f g ≡ (if str_length f + str_length g == max then overruns else too_long)
  append_outside h = unfold append in ground arith
