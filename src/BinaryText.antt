-- ===== src/BinaryText.antt =====
-- cpp/src/macos/io_util_macos.hpp: `binary_to_string` and `string_to_binary`, between unsigned numbers
-- of some bytes and a string of `char`; those of the other systems are the same. A character is the
-- byte that it is.
pub mod RoundTrip
mod Examples
use pensar.Base.{
  ℕ, zero, suc, ◌+◌, ◌-◌, ◌*◌, ◌/◌, ◌%◌, ◌^◌, Option, none, some, List, [], ◌∷◌, ◌++◌, ◌==◌, drop,
  length, if◌then◌else◌,
}

-- The inner loop of `binary_to_string`: the rounds left, and `i`.
unfoldable pub push_bytes : ℕ → ℕ → ℕ → List ℕ
push_bytes zero i byte = []
push_bytes (suc left) i byte = (byte / 256 ^ i) % 256 ∷ push_bytes left (suc i) byte

unfoldable pub binary_to_string : ℕ → List ℕ → List ℕ
unfolding push_bytes
binary_to_string size [] = []
binary_to_string size (byte ∷ bytes) = push_bytes size 0 byte ++ binary_to_string size bytes

-- The inner loop of `string_to_binary`: the rounds left, `j`, and `byte`, whose bits from those of
-- `j` on are 0, so that the or is a sum. The character at the end of the string is 0; one behind it
-- is undefined.
unfoldable pub or_bytes : ℕ → ℕ → ℕ → List ℕ → Option ℕ
or_bytes zero j byte s = some byte
or_bytes (suc left) j byte (c ∷ s) = or_bytes left (suc j) (byte + c * 256 ^ j) s
or_bytes (suc left) j byte [] = if left == 0 then some byte else none

abbrev pub some_number : Option ℕ → Option (List ℕ) → Option (List ℕ)
some_number none more = none
some_number (some n) none = none
some_number (some n) (some ns) = some (n ∷ ns)

-- The outer loop: a round takes the characters of one number, and one of them at least.
unfoldable pub number_loop : ℕ → ℕ → List ℕ → Option (List ℕ)
unfolding or_bytes
number_loop zero size s = none
number_loop (suc fuel) size [] = some []
number_loop (suc fuel) size (c ∷ s) =
    let more = number_loop fuel size (drop size (c ∷ s)) in
    some_number (or_bytes size 0 0 (c ∷ s)) more

unfoldable pub string_to_binary : ℕ → List ℕ → Option (List ℕ)
unfolding number_loop
string_to_binary size s = number_loop (suc (length s)) size s
