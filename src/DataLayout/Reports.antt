-- ===== src/DataLayout/Reports.antt =====
-- What a dumper reports of a structure.
use pensar.Base.{ℕ, ◌+◌, ◌-◌, ◌^◌, ◌≤◌, ◌<◌, ◌≡◌, refl, false, List, [], ◌∷◌, ◌++◌, arith}
use pensar.DataLayout.{
  Member, Structure, expected_size_of_members, Dumper, new_dumper, sub64, add_member, add_members,
}

unfoldable pub total : List ℕ → ℕ
total [] = 0
total (n ∷ ns) = n + total ns

total-append : (ns ms : List ℕ) → total (ns ++ ms) ≡ total ns + total ms
unfolding total
total-append [] ms = omega arith
total-append (n ∷ ns) ms = omega (arith, total-append ns ms)

abbrev pub sizes : List Member → ℕ
sizes [] = 0
sizes (m ∷ ms) = m.size + sizes ms

-- Each member starts at the end of the one before or behind it, and ends below 2 to the 64.
abbrev pub InOrder : ℕ → List Member → Type 0
InOrder p [] = Unit
InOrder p (m ∷ ms) = (p ≤ m.offset) × (m.offset + m.size < 2 ^ 64) × InOrder (m.offset + m.size) ms

sub64-le : (a b : ℕ) → b ≤ a → a < 2 ^ 64 → sub64 a b ≡ a - b
unfolding sub64
sub64-le a b h k = omega arith

add_member-total :
    (d : Dumper) (m : Member)
    → d.first ≡ false
    → d.prev_end ≤ m.offset
    → m.offset + m.size < 2 ^ 64
    → total (add_member d m).internal + d.prev_end ≡ total d.internal + m.offset
unfolding add_member total
add_member-total d m later order fits =
    rw (later, sub64-le m.offset d.prev_end order (omega arith))
      (ground (arith, total-append d.internal ((m.offset - d.prev_end) ∷ [])))

add_member_end : (d : Dumper) (m : Member) → (add_member d m).prev_end ≡ m.offset + m.size
unfolding add_member
add_member_end d m = refl

add_member_later : (d : Dumper) (m : Member) → (add_member d m).first ≡ false
unfolding add_member
add_member_later d m = refl

add_members-total :
    (d : Dumper) (ms : List Member)
    → d.first ≡ false
    → InOrder d.prev_end ms
    → total (add_members d ms).internal + d.prev_end + sizes ms
      ≡ total d.internal + (add_members d ms).prev_end
unfolding add_members
add_members-total d [] later order = omega arith
add_members-total d (m ∷ ms) later (starts, fits, order) = omega (
  arith,
  add_member-total d m later starts fits,
  add_member_end d m,
  add_members-total (add_member d m) ms (add_member_later d m) order,
)

expected_size_of_members-sizes :
    (m : Member) (ms : List Member) → expected_size_of_members m ms ≡ m.size + sizes ms
unfolding expected_size_of_members
expected_size_of_members-sizes m [] = omega arith
expected_size_of_members-sizes m (n ∷ ms) = omega (arith, expected_size_of_members-sizes n ms)

first_reported : (m : Member) → total (add_member new_dumper m).internal ≡ 0
unfolding add_member new_dumper total
first_reported m = refl

-- For members in order, the first at the start, of a structure below 2 to the 64 bytes that holds
-- them: the sizes of the members, the paddings between them that the dumper reports, and the tail
-- that it computes add up to the size of the structure. No byte of padding is missed.
pub add_members-size_of :
    (t : Structure) (m : Member) (ms : List Member)
    → m.offset ≡ 0
    → InOrder (m.offset + m.size) ms
    → (add_members new_dumper (m ∷ ms)).prev_end ≤ t.size_of
    → t.size_of < 2 ^ 64
    → expected_size_of_members m ms
        + total (add_members new_dumper (m ∷ ms)).internal
        + sub64 t.size_of (add_members new_dumper (m ∷ ms)).prev_end
      ≡ t.size_of
unfolding add_members
add_members-size_of t m ms start order inside fits =
    let d = add_member new_dumper m in
    omega (
      arith,
      expected_size_of_members-sizes m ms,
      add_members-total d ms (add_member_later new_dumper m) order,
      add_member_end new_dumper m,
      first_reported m,
      sub64-le t.size_of (add_members new_dumper (m ∷ ms)).prev_end inside fits,
    )
