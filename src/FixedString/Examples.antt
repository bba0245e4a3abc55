-- ===== src/FixedString/Examples.antt =====
-- Runs of `FixedString`, and its theorems at concrete strings.
use pensar.Base.{arith, ℕ, ◌≡◌, refl, ◌↔◌, true, false, [], ◌∷◌, ◌++◌, map, length}
use pensar.FixedString.{
  FixedString, Sensitivity, char_equal, str, str_length, fixed_equal, append, appended,
}
use pensar.FixedString.Compare.{key, fixed_equal-iff_keys}
use pensar.FixedString.Append.{append-str}

-- An accented letter outside ASCII, and the flags that `CS` has by default.
abbrev plain : ℕ → ℕ
plain c = c

abbrev loose : Sensitivity
loose = record { to_case = false; to_accent = false }

abbrev ab : FixedString
ab = record { chars = b'a' ∷ b'B' ∷ 0 ∷ 7 ∷ [] }

abbrev ac : FixedString
ac = record { chars = b'A' ∷ b'c' ∷ 0 ∷ 0 ∷ [] }

abbrev one : FixedString
one = record { chars = b'x' ∷ 0 ∷ 0 ∷ 0 ∷ [] }

loose_equality : fixed_equal plain loose ab (record { chars = b'A' ∷ b'b' ∷ 0 ∷ 9 ∷ [] }) ≡ true
unfolding fixed_equal char_equal
loose_equality = refl

fixed_equal-iff_keys_example :
    (fixed_equal plain loose ab ac ≡ true)
    ↔ (map (key plain loose) (str ab) ≡ map (key plain loose) (str ac))
fixed_equal-iff_keys_example = fixed_equal-iff_keys plain loose ab ac

append-str_example :
    (h : FixedString) × (append 4 ab one ≡ appended h)
    × (length h.chars ≡ 4)
    × (str h ≡ str ab ++ str one)
unfolding str_length
append-str_example = append-str 4 ab one refl (omega arith)
