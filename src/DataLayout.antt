-- ===== src/DataLayout.antt =====
-- cpp/src/data.hpp: the checks that a data structure has no padding, made at compile time by
-- `VERIFY_DATA_STRUCT`, and the report of a `StructLayoutDumper`. What the compiler says of the
-- structure and of its members (offsets, sizes, alignment, traits) is their data. The macros take one
-- to ten members; here they are a first and a list of others.
pub mod Tiling
pub mod Reports
mod Examples
use pensar.Base.{
  ℕ, ◌+◌, ◌-◌, ◌*◌, ◌%◌, ◌^◌, Bool, true, false, ◌&&◌, ◌||◌, List, [], ◌∷◌, ◌++◌, ◌==◌, ltb,
  if◌then◌else◌,
}

pub record Member : Type 0 where
  pub offset : ℕ
  pub size : ℕ

-- `sizeof`, `alignof`, the size of an array of two, and the three traits.
pub record Structure : Type 0 where
  pub size_of : ℕ
  pub align_of : ℕ
  pub size_of_two : ℕ
  pub is_standard_layout : Bool
  pub is_trivially_copyable : Bool
  pub has_unique_representations : Bool

unfoldable pub end_of_member : Member → ℕ
end_of_member m = m.offset + m.size

unfoldable pub expected_size_of_members : Member → List Member → ℕ
expected_size_of_members m [] = m.size
expected_size_of_members m (n ∷ ms) = m.size + expected_size_of_members n ms

unfoldable pub last : Member → List Member → Member
last m [] = m
last m (n ∷ ms) = last n ms

unfoldable pub tail_pad_only : Structure → Member → ℕ
unfolding end_of_member
tail_pad_only t m = (t.align_of - end_of_member m % t.align_of) % t.align_of

unfoldable pub no_internal_padding : Member → Member → Bool
unfolding end_of_member
no_internal_padding m n = n.offset == end_of_member m

unfoldable pub verify_no_internal_padding : Member → List Member → Bool
unfolding no_internal_padding
verify_no_internal_padding m [] = true
verify_no_internal_padding m (n ∷ ms) = no_internal_padding m n && verify_no_internal_padding n ms

unfoldable pub no_tail_padding : Structure → Member → Bool
unfolding tail_pad_only
no_tail_padding t m = tail_pad_only t m == 0

-- Every assertion holds.
unfoldable pub verify_data_struct : Structure → Member → List Member → Bool
unfolding expected_size_of_members last verify_no_internal_padding no_tail_padding
verify_data_struct t m ms =
    (t.size_of == expected_size_of_members m ms)
    && (t.is_standard_layout
        && (t.is_trivially_copyable
            && (t.has_unique_representations
                && ((t.size_of_two == 2 * t.size_of)
                    && (verify_no_internal_padding m ms && no_tail_padding t (last m ms))))))

-- The state of a dumper, with the paddings that it reports.
pub record Dumper : Type 0 where
  pub prev_end : ℕ
  pub first : Bool
  pub internal : List ℕ

unfoldable pub new_dumper : Dumper
new_dumper = record { prev_end = 0; first = true; internal = [] }

-- A difference of `size_t`.
unfoldable pub sub64 : ℕ → ℕ → ℕ
sub64 a b = (a + 2 ^ 64 - b) % 2 ^ 64

unfoldable pub add_member : Dumper → Member → Dumper
unfolding sub64
add_member d m =
    let padding = sub64 m.offset d.prev_end in
    let reported = if ltb 0 padding then d.internal ++ (padding ∷ []) else d.internal in
    record {
      prev_end = m.offset + m.size;
      first = false;
      internal = if d.first then d.internal else reported;
    }

unfoldable pub add_members : Dumper → List Member → Dumper
unfolding add_member
add_members d [] = d
add_members d (m ∷ ms) = add_members (add_member d m) ms

-- The destructor: the tail paddings, if it reports them.
unfoldable pub tail_report : Structure → Dumper → List ℕ
unfolding sub64
tail_report t d =
    let tail_pad = (t.align_of - d.prev_end % t.align_of) % t.align_of in
    let tail_delta = sub64 t.size_of d.prev_end in
    if ltb 0 tail_pad || ltb 0 tail_delta then tail_pad ∷ tail_delta ∷ [] else []
