-- ===== src/ByteOrder.antt =====
-- cpp/src/byte_order.hpp: `ByteOrder`, and `convert`, which turns the bytes of each value of a span
-- around. `std::endian::native` is a parameter of the functions that use it. A swap outside the
-- span is an outcome of its own.
mod Swaps
mod Guards
pub mod Groups
pub mod Outside
mod Examples
use pensar.Base.{
  ℕ, zero, suc, ◌+◌, ◌-◌, ◌/◌, ◌%◌, ◌^◌, Bool, true, false, ◌&&◌, not, Option, none, some, List, [],
  length, get_elem?, set, ltb, leb, ◌==◌, if◌then◌else◌,
}

-- `std::endian`, where `native` is one of the two others, or neither.
pub data StdEndian : Type 0 where
  little big mixed : StdEndian

unfoldable pub same_endian : StdEndian → StdEndian → Bool
same_endian little little = true
same_endian little big = false
same_endian little mixed = false
same_endian big little = false
same_endian big big = true
same_endian big mixed = false
same_endian mixed little = false
same_endian mixed big = false
same_endian mixed mixed = true

pub data Invariance : Type 0 where
  data_invariance address_invariance : Invariance

pub same_invariance : Invariance → Invariance → Bool
same_invariance data_invariance data_invariance = true
same_invariance data_invariance address_invariance = false
same_invariance address_invariance data_invariance = false
same_invariance address_invariance address_invariance = true

pub record ByteOrder : Type 0 where
  pub mendian : StdEndian
  pub minvariance : Invariance
  pub maddress_size : ℕ

module _ (native : StdEndian) where
  -- The constructor with no argument; `sizeof (Word)` is one byte.
  abbrev pub default_byte_order : ByteOrder
  default_byte_order = record {
    mendian = native;
    minvariance = address_invariance;
    maddress_size = 1;
  }

  abbrev pub native_byte_order : ByteOrder
  native_byte_order = record {
    mendian = native;
    minvariance = address_invariance;
    maddress_size = 8;
  }

  pub is_native_endian : ByteOrder → Bool
  unfolding same_endian
  is_native_endian o = same_endian o.mendian native

abbrev pub little_address_8_byte_order : ByteOrder
little_address_8_byte_order = record {
  mendian = little;
  minvariance = address_invariance;
  maddress_size = 8;
}

abbrev pub big_address_8_byte_order : ByteOrder
big_address_8_byte_order = record {
  mendian = big;
  minvariance = address_invariance;
  maddress_size = 8;
}

pub is_address_invariant : ByteOrder → Bool
unfolding same_invariance
is_address_invariant o = same_invariance o.minvariance address_invariance

pub is_data_invariant : ByteOrder → Bool
unfolding same_invariance
is_data_invariant o = same_invariance o.minvariance data_invariance

pub is_little_endian : ByteOrder → Bool
unfolding same_endian
is_little_endian o = same_endian o.mendian little

pub is_big_endian : ByteOrder → Bool
unfolding same_endian
is_big_endian o = same_endian o.mendian big

pub equals_invariance : ByteOrder → ByteOrder → Bool
unfolding same_invariance
equals_invariance o other = same_invariance o.minvariance other.minvariance

pub equals_endian : ByteOrder → ByteOrder → Bool
unfolding same_endian
equals_endian o other = same_endian o.mendian other.mendian

pub equals_address_size : ByteOrder → ByteOrder → Bool
equals_address_size o other = o.maddress_size == other.maddress_size

pub only_endian_differs : ByteOrder → ByteOrder → Bool
unfolding equals_endian equals_invariance equals_address_size
only_endian_differs o other =
    not (equals_endian o other) && (equals_invariance o other && equals_address_size o other)

-- `operator==`; `operator!=` is its negation.
pub equals : ByteOrder → ByteOrder → Bool
unfolding equals_endian equals_invariance equals_address_size
equals o other = (equals_invariance o other && equals_endian o other) && equals_address_size o other

-- `pd::swap` of two elements of the span; `none` if one of them is not in it.
swap_with : ℕ → ℕ → List ℕ → Option ℕ → Option ℕ → Option (List ℕ)
swap_with lo hi bytes none b = none
swap_with lo hi bytes (some a) none = none
swap_with lo hi bytes (some a) (some b) = some (set (set bytes lo b) hi a)

pub swap : ℕ → ℕ → List ℕ → Option (List ℕ)
unfolding swap_with
swap lo hi bytes = swap_with lo hi bytes (get_elem? bytes lo) (get_elem? bytes hi)

-- How `convert` ends; fuel counts the values of the span.
pub data Converted : Type 0 where
  converted : List ℕ → Converted
  outside_span no_fuel : Converted

abbrev pub maybe_then {ℓ κ} : {A : Type ℓ} {B : Type κ} → Option A → (A → Option B) → Option B
maybe_then none f = none
maybe_then (some a) f = f a

-- The loop over `j`: the swaps left to make, the value's position, and `j`; `i - j` is a `size_t`.
pub swap_loop : ℕ → ℕ → ℕ → ℕ → List ℕ → Option (List ℕ)
unfolding swap
swap_loop zero i j original_data_size bytes = some bytes
swap_loop (suc left) i j original_data_size bytes =
    maybe_then (swap (i + j) ((((i + 2 ^ 64) - j) + original_data_size - 1) % 2 ^ 64) bytes)
      (swap_loop left i (suc j) original_data_size)

abbrev pub converted_then : Option (List ℕ) → (List ℕ → Converted) → Converted
converted_then none f = outside_span
converted_then (some bytes) f = f bytes

-- The loop over `i`.
pub convert_loop : ℕ → ℕ → ℕ → ℕ → List ℕ → Converted
unfolding swap_loop
convert_loop zero i e original_data_size bytes = no_fuel
convert_loop (suc fuel) i e original_data_size bytes =
    if leb i e
    then converted_then (swap_loop (original_data_size / 2) i 0 original_data_size bytes)
        (convert_loop fuel (i + original_data_size) e original_data_size)
    else converted bytes

-- `e` is a `size_t`, and wraps if the span is shorter than one value.
pub convert : List ℕ → ℕ → ByteOrder → ByteOrder → Converted
unfolding equals only_endian_differs convert_loop
convert bytes original_data_size from to =
    if (not (equals from to) && ltb 1 (length bytes))
      && (only_endian_differs from to && ltb 1 original_data_size)
    then convert_loop (suc (length bytes)) 0
        (((length bytes + 2 ^ 64) - original_data_size) % 2 ^ 64) original_data_size bytes
    else converted bytes
