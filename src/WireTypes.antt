-- ===== src/WireTypes.antt =====
-- cpp/src/endian.hpp, cpp/src/wire_int.hpp and cpp/src/wire_double.hpp: numbers whose storage has
-- the bytes of a chosen byte order on every machine. An integer is its bit pattern, and its width
-- is counted in bytes. `std::endian::native` is a parameter, and so are the floating-point type,
-- its operations and `std::bit_cast`.
pub mod Bytes
pub mod Storage
pub mod Values
mod Examples
use mathlib.Core.List.{reverse}
use pensar.Base.{
  ℕ, zero, suc, ◌+◌, ◌*◌, ◌/◌, ◌%◌, Bool, ◌&&◌, ◌||◌, List, [], ◌∷◌, ltb, ◌==◌, if◌then◌else◌,
}
use pensar.ByteOrder.{StdEndian, little, big, mixed, same_endian}

-- The bytes of a number in memory, on a machine of little endianness, and the number they make.
unfoldable pub le_bytes : ℕ → ℕ → List ℕ
le_bytes zero v = []
le_bytes (suc n) v = (v % 256) ∷ le_bytes n (v / 256)

unfoldable pub of_le_bytes : List ℕ → ℕ
of_le_bytes [] = 0
of_le_bytes (b ∷ bs) = b + 256 * of_le_bytes bs

-- `std::byteswap` of an integer of `n` bytes.
pub byteswap : ℕ → ℕ → ℕ
unfolding le_bytes of_le_bytes
byteswap n v = of_le_bytes (reverse (le_bytes n v))

-- `Endian`: one signed byte, as its bit pattern.
pub record Endian : Type 0 where
  pub value : ℕ

abbrev pub not_applicable : Endian
not_applicable = record { value = 254 }

abbrev pub unknown_endian : Endian
unknown_endian = record { value = 255 }

abbrev pub little_endian : Endian
little_endian = record { value = 0 }

abbrev pub big_endian : Endian
big_endian = record { value = 1 }

pub is_little : Endian → Bool
is_little e = e.value == 0

pub is_big : Endian → Bool
is_big e = e.value == 1

-- `value >= 0`
pub known : Endian → Bool
known e = ltb e.value 128

pub same_value : Endian → Endian → Bool
same_value a b = a.value == b.value

module _ (native : StdEndian) where
  pub native_endian : Endian
  unfolding same_endian
  native_endian =
      if same_endian native little
      then little_endian
      else if same_endian native big
      then big_endian
      else unknown_endian

  pub is_native : Endian → Bool
  unfolding native_endian
  is_native e = e.value == native_endian.value

  pub to_std : Endian → StdEndian
  to_std e = if e.value == 0 then little else if e.value == 1 then big else native

  pub need_swap : Endian → Bool
  unfolding same_endian
  need_swap e =
      (e.value == 0 && same_endian native big) || (e.value == 1 && same_endian native little)

  -- `encode` and `decode` of `Int` and of `Double`.
  pub encode : Endian → ℕ → ℕ → ℕ
  unfolding need_swap byteswap
  encode e n v = if need_swap e then byteswap n v else v

  pub decode : Endian → ℕ → ℕ → ℕ
  unfolding need_swap byteswap
  decode e n v = if need_swap e then byteswap n v else v

-- `Int`: its width in bytes and its byte order are arguments of the operations.
pub record WireInt : Type 0 where
  pub storage : ℕ

abbrev pub default_int : WireInt
default_int = record { storage = 0 }

module _ (native : StdEndian) (e : Endian) (n : ℕ) where
  pub new_int : ℕ → WireInt
  unfolding encode
  new_int value = record { storage = encode native e n value }

  pub int_value : WireInt → ℕ
  unfolding decode
  int_value i = decode native e n i.storage

  pub assign_int : ℕ → WireInt → WireInt
  unfolding encode
  assign_int v i = record i { storage = encode native e n v }

  pub int_eq : WireInt → WireInt → Bool
  unfolding int_value
  int_eq a b = int_value a == int_value b

-- The floating-point type, with `std::bit_cast` to its bits and back.
pub record Floats {κ} (T : Type κ) : Type κ where
  pub to_bits : T → ℕ
  pub of_bits : ℕ → T
  pub add : T → T → T
  pub sub : T → T → T
  pub mul : T → T → T
  pub div : T → T → T
  pub eq : T → T → Bool

-- `Double`
pub record WireDouble : Type 0 where
  pub bits : ℕ

module _ {κ} {T : Type κ} (f : Floats T) (native : StdEndian) (e : Endian) (n : ℕ) where
  pub new_double : T → WireDouble
  unfolding encode
  new_double value = record { bits = encode native e n (f.to_bits value) }

  pub of_raw_bits : ℕ → WireDouble
  unfolding encode
  of_raw_bits raw_bits = record { bits = encode native e n raw_bits }

  pub double_value : WireDouble → T
  unfolding decode
  double_value d = f.of_bits (decode native e n d.bits)

  pub assign_double : T → WireDouble → WireDouble
  unfolding encode
  assign_double v d = record d { bits = encode native e n (f.to_bits v) }

  -- `operator+=` and its kin: the operation on the values.
  pub assign_op : (T → T → T) → WireDouble → WireDouble → WireDouble
  unfolding new_double double_value
  assign_op op d rhs = new_double (op (double_value d) (double_value rhs))

  pub double_add : WireDouble → WireDouble → WireDouble
  unfolding assign_op
  double_add a b = assign_op f.add a b

  pub double_sub : WireDouble → WireDouble → WireDouble
  unfolding assign_op
  double_sub a b = assign_op f.sub a b

  pub double_mul : WireDouble → WireDouble → WireDouble
  unfolding assign_op
  double_mul a b = assign_op f.mul a b

  pub double_div : WireDouble → WireDouble → WireDouble
  unfolding assign_op
  double_div a b = assign_op f.div a b

  pub double_eq : WireDouble → WireDouble → Bool
  unfolding double_value
  double_eq a b = f.eq (double_value a) (double_value b)
