-- ===== src/DataLayout/Examples.antt =====
-- Structures with and without padding, and the theorems on them.
use pensar.Base.{◌≡◌, refl, true, false, List, [], ◌∷◌, arith}
use pensar.DataLayout.{
  Member, Structure, verify_data_struct, end_of_member, last, new_dumper, add_members, tail_report,
}
use pensar.DataLayout.Tiling.{covers, covers-verify_data_struct}

-- Two doubles and two ints.
abbrev packed : Structure
packed = record {
  size_of = 24;
  align_of = 8;
  size_of_two = 48;
  is_standard_layout = true;
  is_trivially_copyable = true;
  has_unique_representations = true;
}

abbrev others : List Member
others =
    record { offset = 8; size = 8 }
    ∷ record { offset = 16; size = 4 }
    ∷ record { offset = 20; size = 4 }
    ∷ []

covers-verify_data_struct_example : covers (record { offset = 0; size = 8 }) others 21 ≡ 1
unfolding verify_data_struct end_of_member last
covers-verify_data_struct_example =
    covers-verify_data_struct packed (record { offset = 0; size = 8 }) others 21 refl (omega arith)
      (omega arith)

-- A byte, an int and a byte.
abbrev padded : Structure
padded = record {
  size_of = 12;
  align_of = 4;
  size_of_two = 24;
  is_standard_layout = true;
  is_trivially_copyable = true;
  has_unique_representations = false;
}

abbrev spread : List Member
spread = record { offset = 4; size = 4 } ∷ record { offset = 8; size = 1 } ∷ []

not_verified : verify_data_struct padded (record { offset = 0; size = 1 }) spread ≡ false
unfolding verify_data_struct
not_verified = refl

reported : (add_members new_dumper (record { offset = 0; size = 1 } ∷ spread)).internal ≡ 3 ∷ []
unfolding add_members new_dumper
reported = refl

reported_tail :
    tail_report padded (add_members new_dumper (record { offset = 0; size = 1 } ∷ spread))
    ≡ 3 ∷ 3 ∷ []
unfolding tail_report add_members new_dumper
reported_tail = refl
