-- ===== src/ByteOrder/Examples.antt =====
-- Spans converted, and the theorems at concrete spans.
use mathlib.Core.List.{flatten}
use pensar.Base.{◌≡◌, refl, [], ◌∷◌, arith}
use pensar.ByteOrder.{
  little_address_8_byte_order, big_address_8_byte_order, only_endian_differs, converted, convert,
}
use pensar.ByteOrder.Groups.{convert-groups}

two_and_a_half :
    convert (1 ∷ 2 ∷ 3 ∷ 4 ∷ 5 ∷ []) 2 little_address_8_byte_order big_address_8_byte_order
    ≡ converted (2 ∷ 1 ∷ 4 ∷ 3 ∷ 5 ∷ [])
unfolding convert
two_and_a_half = refl

convert-groups_example :
    (convert (1 ∷ 2 ∷ 3 ∷ 4 ∷ 5 ∷ 6 ∷ 7 ∷ []) 3 little_address_8_byte_order big_address_8_byte_order
      ≡ converted (3 ∷ 2 ∷ 1 ∷ 6 ∷ 5 ∷ 4 ∷ 7 ∷ []))
    × (convert
          (3 ∷ 2 ∷ 1 ∷ 6 ∷ 5 ∷ 4 ∷ 7 ∷ [])
          3
          big_address_8_byte_order
          little_address_8_byte_order
        ≡ converted (1 ∷ 2 ∷ 3 ∷ 4 ∷ 5 ∷ 6 ∷ 7 ∷ []))
unfolding only_endian_differs flatten
convert-groups_example =
    convert-groups 3 (1 ∷ 2 ∷ 3 ∷ []) ((4 ∷ 5 ∷ 6 ∷ []) ∷ []) (7 ∷ []) little_address_8_byte_order
      big_address_8_byte_order (omega arith) (refl, (refl, tt)) (omega arith) (omega arith) refl
