-- ===== src/BinaryText/Examples.antt =====
-- Numbers of two bytes as a string, and the theorem on them.
use pensar.Base.{◌≡◌, refl, none, some, [], ◌∷◌, arith}
use pensar.BinaryText.{binary_to_string, string_to_binary}
use pensar.BinaryText.RoundTrip.{string_to_binary-binary_to_string}

two_bytes : binary_to_string 2 (258 ∷ 65 ∷ []) ≡ 2 ∷ 1 ∷ 65 ∷ 0 ∷ []
unfolding binary_to_string
two_bytes = refl

-- The last number takes the null character behind the string.
odd_length : string_to_binary 2 (2 ∷ 1 ∷ 65 ∷ []) ≡ some (258 ∷ 65 ∷ [])
unfolding string_to_binary
odd_length = refl

-- A number of four bytes reads behind it.
too_short : string_to_binary 4 (2 ∷ 1 ∷ []) ≡ none
unfolding string_to_binary
too_short = refl

string_to_binary-binary_to_string_example :
    string_to_binary 2 (binary_to_string 2 (258 ∷ 65 ∷ [])) ≡ some (258 ∷ 65 ∷ [])
string_to_binary-binary_to_string_example =
    string_to_binary-binary_to_string 2 (258 ∷ 65 ∷ []) (omega arith)
      (omega arith, (omega arith, tt))
