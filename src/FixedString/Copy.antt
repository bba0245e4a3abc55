-- ===== src/FixedString/Copy.antt =====
-- What a fixed string holds after a copy into it.
use pensar.Base.{
  ℕ, ◌+◌, ◌≤◌, ◌<◌, ◌≡◌, refl, ◌∙◌, ◌⊎◌, true, List, [], ◌∷◌, ◌++◌, arith, length, drop, replicate,
  set, length-append, length-replicate, length-drop, length-set,
}
use pensar.Base.Outcome.{done, throws, runtime_error}
use pensar.FixedString.{FixedString, until_null, str, copy, memcpy}

-- A null character put behind the first characters ends the string there.
pub until_null-set :
    (s rest : List ℕ) → 0 < length rest → until_null (set (s ++ rest) (length s) 0) ≡ until_null s
unfolding until_null
until_null-set [] [] h = elim h [ ]
until_null-set [] (r ∷ rest) h = refl
until_null-set (c ∷ s) rest h = ground (arith, until_null-set s rest h)

pub length-memcpy :
    (s chars : List ℕ) → length s ≤ length chars → length (memcpy 0 s chars) ≡ length chars
unfolding memcpy
length-memcpy s chars h =
    omega (arith, length-append s (drop (0 + length s) chars), length-drop (0 + length s) chars)

module _ (min max : ℕ) (s : List ℕ) (f : FixedString) where
  copy-lt :
      min ≤ length s
      → length s < max
      → copy min max s true true f
        ≡ done (record { chars = set (memcpy 0 s (replicate max 0)) (length s) 0 })
  unfolding copy
  copy-lt h k = ground arith

  -- The two outcomes of a copy.
  pub copy_outcomes :
      ((max ≤ length s) ⊎ (length s < min) → copy min max s true true f ≡ throws runtime_error)
      × (min ≤ length s
          → length s < max
          → (g : FixedString) × (copy min max s true true f ≡ done g)
            × (length g.chars ≡ max)
            × (str g ≡ until_null s))
  unfolding str
  copy_outcomes = (
    λ h. unfold copy in ground arith,
    λ h k. (
      _,
      copy-lt h k,
      length-set (memcpy 0 s (replicate max 0)) (length s) 0
          ∙ length-memcpy s (replicate max 0) (omega (arith, length-replicate {A = ℕ} max 0))
          ∙ length-replicate {A = ℕ} max 0,
      unfold memcpy in
          until_null-set s (drop (0 + length s) (replicate max 0)) (
            omega (
              arith,
              length-drop {A = ℕ} (0 + length s) (replicate max 0),
              length-replicate {A = ℕ} max 0,
            )),
    ),
  )

  -- A copy into a fixed string throws when the source is shorter than the least length or does
  -- not leave room for the null character.
  pub copy_throws :
      (max ≤ length s) ⊎ (length s < min) → copy min max s true true f ≡ throws runtime_error
  copy_throws = copy_outcomes.0

  -- A copy of a source that has the least length, and leaves room for the null character, does
  -- not throw: the array keeps its size, and the string read back is the source up to its first
  -- null character.
  pub copy-str :
      min ≤ length s
      → length s < max
      → (g : FixedString) × (copy min max s true true f ≡ done g)
        × (length g.chars ≡ max)
        × (str g ≡ until_null s)
  copy-str = copy_outcomes.1
