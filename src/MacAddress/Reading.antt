-- ===== src/MacAddress/Reading.antt =====
-- What the text of an address says.
use pensar.Base.{
  ℕ, ◌+◌, ◌-◌, ◌*◌, ◌/◌, ◌%◌, ◌^◌, ◌<◌, ◌≡◌, ap, ◌∙◌, Option, none, some, List, [], ◌∷◌, ◌++◌, ltb,
  if◌then◌else◌, arith,
}
use pensar.MacAddress.{MacAddress, hex_digit, hex_byte, byte_at, to_text}

-- A reader of hexadecimal bytes with colons between them, the first the highest.
unfoldable pub digit_value : ℕ → ℕ
digit_value c = if ltb c 58 then c - 48 else c - 87

unfoldable pub read_bytes : ℕ → List ℕ → Option ℕ
unfolding digit_value
read_bytes acc [] = none
read_bytes acc (c ∷ []) = none
read_bytes acc (c ∷ d ∷ []) = some (acc * 256 + (digit_value c * 16 + digit_value d))
read_bytes acc (c ∷ d ∷ colon ∷ rest) =
    read_bytes (acc * 256 + (digit_value c * 16 + digit_value d)) rest

byte_value :
    (b : ℕ) → b < 256 → digit_value (hex_digit (b / 16)) * 16 + digit_value (hex_digit (b % 16)) ≡ b
unfolding digit_value hex_digit
byte_value b h = ground arith

byte_at-lt : (shift m : ℕ) → byte_at shift m < 256
unfolding byte_at
byte_at-lt shift m = omega arith

read_bytes-hex :
    (acc b colon : ℕ) (rest : List ℕ)
    → b < 256
    → read_bytes acc (hex_byte b ++ (colon ∷ rest)) ≡ read_bytes (acc * 256 + b) rest
unfolding read_bytes hex_byte
read_bytes-hex acc b colon rest h = ap (λ n. read_bytes (acc * 256 + n) rest) (byte_value b h)

read_bytes-last : (acc b : ℕ) → b < 256 → read_bytes acc (hex_byte b) ≡ some (acc * 256 + b)
unfolding read_bytes hex_byte
read_bytes-last acc b h = ap (λ n. some (acc * 256 + n)) (byte_value b h)

six_bytes :
    (m : ℕ)
    → (((((0 * 256 + byte_at 40 m) * 256 + byte_at 32 m) * 256 + byte_at 24 m) * 256 + byte_at 16 m)
              * 256
            + byte_at 8 m)
          * 256
        + m % 256
      ≡ m % 2 ^ 48
unfolding byte_at
six_bytes m = omega arith

-- The text of an address has six bytes that are read as its number, but for the bits above the 48
-- that an address has, which the text leaves out.
pub read_bytes-to_text : (m : MacAddress) → read_bytes 0 (to_text m) ≡ some (m.mac % 2 ^ 48)
unfolding to_text
read_bytes-to_text m =
    read_bytes-hex 0 (byte_at 40 m.mac) 58 _ (byte_at-lt 40 m.mac)
    ∙ read_bytes-hex _ (byte_at 32 m.mac) 58 _ (byte_at-lt 32 m.mac)
    ∙ read_bytes-hex _ (byte_at 24 m.mac) 58 _ (byte_at-lt 24 m.mac)
    ∙ read_bytes-hex _ (byte_at 16 m.mac) 58 _ (byte_at-lt 16 m.mac)
    ∙ read_bytes-hex _ (byte_at 8 m.mac) 58 _ (byte_at-lt 8 m.mac)
    ∙ read_bytes-last _ (m.mac % 256) (omega arith)
    ∙ ap some (six_bytes m.mac)
