-- ===== src/ByteOrder/Guards.antt =====
-- The tests of a `ByteOrder`, and the guards of `convert`.
use pensar.Base.{
  ℕ, suc, ◌+◌, ◌-◌, ◌%◌, ◌^◌, ◌<◌, ◌≡◌, refl, Bool, true, false, not, ◌&&◌, ◌==◌, List, length,
  arith,
}
use pensar.ByteOrder.{
  StdEndian, little, big, mixed, same_endian, Invariance, data_invariance, address_invariance,
  same_invariance, equals_endian, equals_invariance, equals_address_size, ByteOrder, equals,
  only_endian_differs, convert_loop, convert,
}

same_endian_comm : (a b : StdEndian) → same_endian a b ≡ same_endian b a
unfolding same_endian
same_endian_comm little little = refl
same_endian_comm little big = refl
same_endian_comm little mixed = refl
same_endian_comm big little = refl
same_endian_comm big big = refl
same_endian_comm big mixed = refl
same_endian_comm mixed little = refl
same_endian_comm mixed big = refl
same_endian_comm mixed mixed = refl

same_invariance_comm : (a b : Invariance) → same_invariance a b ≡ same_invariance b a
unfolding same_invariance
same_invariance_comm data_invariance data_invariance = refl
same_invariance_comm data_invariance address_invariance = refl
same_invariance_comm address_invariance data_invariance = refl
same_invariance_comm address_invariance address_invariance = refl

==_comm : (a b : ℕ) → (a == b) ≡ (b == a)
==_comm a b = ground arith

pub only_endian_differs_comm :
    (from to : ByteOrder) → only_endian_differs from to ≡ only_endian_differs to from
unfolding only_endian_differs equals_endian equals_invariance equals_address_size
only_endian_differs_comm from to =
    rw
      (
        same_endian_comm from.mendian to.mendian,
        same_invariance_comm from.minvariance to.minvariance,
        ==_comm from.maddress_size to.maddress_size,
      )
      refl

not_both : (a b c : Bool) → (not b && (a && c)) ≡ true → ((a && b) && c) ≡ false
not_both true true c h = cc
not_both true false c h = refl
not_both false b c h = refl

equals-differs : (from to : ByteOrder) → only_endian_differs from to ≡ true → equals from to ≡ false
unfolding only_endian_differs equals
equals-differs from to =
    not_both (equals_invariance from to) (equals_endian from to) (equals_address_size from to)

-- The guards of `convert` passed.
pub convert-loop :
    (n : ℕ) (bytes : List ℕ) (from to : ByteOrder)
    → 1 < n
    → 1 < length bytes
    → only_endian_differs from to ≡ true
    → convert bytes n from to
      ≡ convert_loop (suc (length bytes)) 0 (((length bytes + 2 ^ 64) - n) % 2 ^ 64) n bytes
unfolding convert
convert-loop n bytes from to wide two differs =
    rw (equals-differs from to differs, differs) (ground arith)
