-- ===== src/WireTypes/Storage.antt =====
-- The bytes of a stored integer in the memory of a machine, and what another machine makes of them.
use mathlib.Core.List.{reverse, reverse-reverse}
use pensar.Base.{
  length, ℕ, ◌^◌, ◌<◌, ◌≡◌, ◌≢◌, refl, sym, ap, ◌∙◌, List, arith, if◌then◌else◌, ◌==◌, Bool-cases,
  inl, inr,
}
use pensar.ByteOrder.{StdEndian, little, big, mixed, same_endian}
use pensar.WireTypes.{Endian, le_bytes, of_le_bytes, need_swap, encode, decode, new_int, int_value}
use pensar.WireTypes.Bytes.{
  length-le_bytes, length-reverse-le_bytes, le_bytes-byteswap, byteswap-lt, byteswap-byteswap,
  of_le_bytes-le_bytes,
}

-- The bytes of a number in the memory of a machine, and the number read from them.
abbrev pub memory : StdEndian → ℕ → ℕ → List ℕ
memory little n v = le_bytes n v
memory big n v = reverse (le_bytes n v)
memory mixed n v = le_bytes n v

abbrev pub from_memory : StdEndian → List ℕ → ℕ
from_memory little bytes = of_le_bytes bytes
from_memory big bytes = of_le_bytes (reverse bytes)
from_memory mixed bytes = of_le_bytes bytes

-- The bytes of a number in a byte order.
abbrev pub wire_bytes : Endian → ℕ → ℕ → List ℕ
wire_bytes e n v = if e.value == 0 then le_bytes n v else reverse (le_bytes n v)

memory-new_int :
    (native : StdEndian) (e : Endian) (n v : ℕ)
    → native ≢ mixed
    → e.value < 2
    → memory native n (new_int native e n v).storage ≡ wire_bytes e n v
unfolding new_int encode need_swap same_endian
memory-new_int little e n v known two = ground (arith, le_bytes-byteswap n v)
memory-new_int big e n v known two =
    ground (arith, ap reverse (le_bytes-byteswap n v), reverse-reverse (le_bytes n v))
memory-new_int mixed e n v known two = absurd (known refl)

pub length-memory : (native : StdEndian) (n v : ℕ) → length (memory native n v) ≡ n
length-memory little n v = length-le_bytes n v
length-memory big n v = length-reverse-le_bytes n v
length-memory mixed n v = length-le_bytes n v

encode-lt :
    (native : StdEndian) (e : Endian) (n v : ℕ) → v < 256 ^ n → encode native e n v < 256 ^ n
unfolding encode
encode-lt native e n v h = elim (Bool-cases (need_swap native e)) [
  | inl swapped ↦ rw swapped (byteswap-lt n v)
  | inr same ↦ rw same h
]

pub decode-encode :
    (native : StdEndian) (e : Endian) (n v : ℕ)
    → v < 256 ^ n
    → decode native e n (encode native e n v) ≡ v
unfolding encode decode
decode-encode native e n v h = elim (Bool-cases (need_swap native e)) [
  | inl swapped ↦ rw swapped (byteswap-byteswap n v h)
  | inr same ↦ rw same refl
]

pub from_memory-memory :
    (native : StdEndian) (n s : ℕ) → s < 256 ^ n → from_memory native (memory native n s) ≡ s
from_memory-memory little n s h = of_le_bytes-le_bytes n s h
from_memory-memory big n s h =
    ap of_le_bytes (reverse-reverse (le_bytes n s)) ∙ of_le_bytes-le_bytes n s h
from_memory-memory mixed n s h = of_le_bytes-le_bytes n s h

-- An integer that fits its width, stored on one machine, has the same value on every machine that
-- gets the bytes of its storage; the machines are of little or big endianness, and so is the byte
-- order of its type.
pub int_value-carried :
    (here there : StdEndian) (e : Endian) (n v : ℕ)
    → here ≢ mixed
    → there ≢ mixed
    → e.value < 2
    → v < 256 ^ n
    → let bytes = memory here n (new_int here e n v).storage in
      (bytes ≡ wire_bytes e n v)
      × (int_value there e n (record { storage = from_memory there bytes }) ≡ v)
unfolding new_int int_value
int_value-carried here there e n v known known' two h =
    let sent = memory-new_int here e n v known two in
    let received = memory-new_int there e n v known' two in
    (
      sent,
      ap (λ bytes. decode there e n (from_memory there bytes)) (sent ∙ sym received)
          ∙ ap (decode there e n)
              (from_memory-memory there n (encode there e n v) (encode-lt there e n v h))
          ∙ decode-encode there e n v h,
    )
