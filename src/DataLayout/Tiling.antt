-- ===== src/DataLayout/Tiling.antt =====
-- What the checks say of the bytes of a structure.
use pensar.Base.{
  ℕ, ◌+◌, ◌≤◌, ◌<◌, ◌≡◌, refl, ◌∙◌, true, ◌&&◌, List, [], ◌∷◌, ltb, leb, if◌then◌else◌, arith,
}
use pensar.DataLayout.{
  Member, Structure, end_of_member, expected_size_of_members, last, verify_no_internal_padding,
  verify_data_struct,
}

-- In how many of the members a byte lies.
unfoldable pub covers : Member → List Member → ℕ → ℕ
covers m [] b = if leb m.offset b && ltb b (m.offset + m.size) then 1 else 0
covers m (n ∷ ms) b =
    let rest = covers n ms b in
    (if leb m.offset b && ltb b (m.offset + m.size) then 1 else 0) + rest

end-contiguous :
    (m : Member) (ms : List Member)
    → verify_no_internal_padding m ms ≡ true
    → end_of_member (last m ms) ≡ m.offset + expected_size_of_members m ms
unfolding verify_no_internal_padding last expected_size_of_members end_of_member
end-contiguous m [] h = refl
end-contiguous m (n ∷ ms) h = ground (arith, end-contiguous n ms)

-- Members in a row cover each byte between the first offset and the last end once.
covers-contiguous :
    (m : Member) (ms : List Member) (b : ℕ)
    → verify_no_internal_padding m ms ≡ true
    → covers m ms b
      ≡ (if leb m.offset b && ltb b (m.offset + expected_size_of_members m ms) then 1 else 0)
unfolding verify_no_internal_padding expected_size_of_members covers
covers-contiguous m [] b h = refl
covers-contiguous m (n ∷ ms) b h = ground (arith, covers-contiguous n ms b)

verified_parts :
    (t : Structure) (m : Member) (ms : List Member)
    → verify_data_struct t m ms ≡ true
    → (t.size_of ≡ expected_size_of_members m ms) × (verify_no_internal_padding m ms ≡ true)
unfolding verify_data_struct
verified_parts t m ms h = (ground arith, ground arith)

-- If the checks of a structure pass, and its last member lies inside it, each byte of the structure
-- lies in just one of its members: there is no padding before, between or behind them.
pub covers-verify_data_struct :
    (t : Structure) (m : Member) (ms : List Member) (b : ℕ)
    → verify_data_struct t m ms ≡ true
    → end_of_member (last m ms) ≤ t.size_of
    → b < t.size_of
    → covers m ms b ≡ 1
covers-verify_data_struct t m ms b h inside lt =
    let (total, row) = verified_parts t m ms h in
    covers-contiguous m ms b row ∙ ground (arith, total, end-contiguous m ms row)
