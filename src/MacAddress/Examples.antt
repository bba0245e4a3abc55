-- ===== src/MacAddress/Examples.antt =====
-- The text of an address, and the theorem on it.
use pensar.Base.{◌%◌, ◌^◌, ◌≡◌, refl, some, [], ◌∷◌}
use pensar.MacAddress.{MacAddress, to_text}
use pensar.MacAddress.Reading.{read_bytes, read_bytes-to_text}

-- 00:1a:2b:3c:4d:5e
abbrev card : MacAddress
card = record { mac = 112394521950 }

card_text :
    to_text card
    ≡ 48 ∷ 48 ∷ 58 ∷ 49 ∷ 97 ∷ 58 ∷ 50 ∷ 98 ∷ 58 ∷ 51 ∷ 99 ∷ 58 ∷ 52 ∷ 100 ∷ 58 ∷ 53 ∷ 101 ∷ []
unfolding to_text
card_text = refl

read_bytes-to_text_example : read_bytes 0 (to_text card) ≡ some (112394521950 % 2 ^ 48)
read_bytes-to_text_example = read_bytes-to_text card
