-- ===== src/MacAddress.antt =====
-- cpp/src/mac_address.hpp: `MacAddress`, the number of a network card, and its text. The number is
-- that of the 64 bits of an `int64_t`; a shift of a negative number by its sign gives the same bits
-- below the mask. A text is a list of character codes, narrow or wide.
pub mod Reading
mod Examples
use pensar.Base.{ℕ, ◌+◌, ◌/◌, ◌%◌, ◌^◌, List, [], ◌∷◌, ◌++◌, ltb, if◌then◌else◌}

pub record MacAddress : Type 0 where
  pub mac : ℕ

-- A digit of `%x`, and the two of `%02x` for a number below 256.
unfoldable pub hex_digit : ℕ → ℕ
hex_digit d = if ltb d 10 then 48 + d else 87 + d

unfoldable pub hex_byte : ℕ → List ℕ
unfolding hex_digit
hex_byte b = hex_digit (b / 16) ∷ hex_digit (b % 16) ∷ []

-- `(mac >> shift) & 0xff`
unfoldable pub byte_at : ℕ → ℕ → ℕ
byte_at shift mac = (mac / 2 ^ shift) % 256

-- The conversion to a string.
unfoldable pub to_text : MacAddress → List ℕ
unfolding hex_byte byte_at
to_text m =
    hex_byte (byte_at 40 m.mac)
    ++ (58
        ∷ (hex_byte (byte_at 32 m.mac)
            ++ (58
                ∷ (hex_byte (byte_at 24 m.mac)
                    ++ (58
                        ∷ (hex_byte (byte_at 16 m.mac)
                            ++ (58
                                ∷ (hex_byte (byte_at 8 m.mac)
                                    ++ (58 ∷ hex_byte (m.mac % 256))))))))))
