-- ===== src/WireTypes/Examples.antt =====
-- Numbers on the wire, and the theorems at concrete numbers.
use pensar.Base.{
  ◌^◌, ◌<◌, ◌≡◌, ◌≢◌, refl, [], ◌∷◌, arith, ◌==◌, Bool, true, false, ◌&&◌, ◌||◌, if◌then◌else◌, not,
}
use pensar.ByteOrder.{little, big, mixed}
use pensar.WireTypes.{big_endian, Floats, new_int, int_value, WireDouble, byteswap, le_bytes}
use pensar.WireTypes.Storage.{memory, from_memory, int_value-carried}

swapped_word : byteswap 4 305419896 ≡ 2018915346
unfolding byteswap
swapped_word = refl

little_known : little ≢ mixed
little_known = cc

big_known : big ≢ mixed
big_known = cc

int_value-carried_example :
    (memory little 2 (new_int little big_endian 2 258).storage ≡ 1 ∷ 2 ∷ [])
    × (int_value big big_endian 2 (record { storage = from_memory big (1 ∷ 2 ∷ []) }) ≡ 258)
unfolding le_bytes new_int
int_value-carried_example =
    int_value-carried little big big_endian 2 258 little_known big_known (omega arith) (omega arith)

-- A number of one bit.
abbrev bits : Floats Bool
bits = record {
  to_bits = λ b. if b then 1 else 0;
  of_bits = λ n. n == 1;
  add = λ a b. a || b;
  sub = λ a b. a && not b;
  mul = λ a b. a && b;
  div = λ a b. a;
  eq = λ a b. if a then b else not b;
}

bits_back : (b : Bool) → bits.of_bits (bits.to_bits b) ≡ b
bits_back true = refl
bits_back false = refl

bits_fit : (b : Bool) → bits.to_bits b < 256 ^ 4
bits_fit true = omega arith
bits_fit false = omega arith

abbrev big_one : WireDouble
big_one = record { bits = 16777216 }
