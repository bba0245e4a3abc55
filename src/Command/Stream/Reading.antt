-- ===== src/Command/Stream/Reading.antt =====
-- A tree of commands read from the bytes of one.
use pensar.Base.{
  ℕ, zero, suc, ◌+◌, ◌-◌, ◌≤◌, ◌≡◌, refl, Option, ap, sym, ◌∙◌, some, List, [], ◌∷◌, ◌++◌, max,
  length, arith,
}
use pensar.TriBool.{TriBool, unknown}
use pensar.BinaryBuffer.{BinaryBuffer}
use pensar.BinaryBuffer.Cursor.{At, read-At}
use pensar.ObjectFormat.{read_into, read_object}
use pensar.ObjectFormat.RoundTrip.{bytes, read_object-At}
use pensar.WireTypes.Storage.{length-memory}
use pensar.Command.{
  Command, leaf, composite, Slots, end, null_slot, freed_slot, slot, max_commands, null_slots,
  new_composite, set_slot,
}
use pensar.Command.Stream.{Classes, base_parts, create, ReadResult, made_then, read_next}

-- The composites that stand in one another, and the commands of a composite.
unfoldable mutual
  pub depth : Command → ℕ
  depth (leaf id mok kind) = 1
  depth (composite id mok mindex slots) = suc (depth_slots slots mindex)

  pub depth_slots : Slots → ℕ → ℕ
  depth_slots end n = 0
  depth_slots (null_slot rest) n = 0
  depth_slots (freed_slot rest) n = 0
  depth_slots (slot c rest) zero = 0
  depth_slots (slot c rest) (suc n) = max (depth c) (depth_slots rest n)

-- Commands in front of an array.
unfoldable pub slots_of : List Command → Slots → Slots
slots_of [] rest = rest
slots_of (c ∷ cs) rest = slot c (slots_of cs rest)

pub slots_of-append :
    (cs : List Command) (c : Command) (rest : Slots)
    → slots_of (cs ++ (c ∷ [])) rest ≡ slots_of cs (slot c rest)
unfolding slots_of
slots_of-append [] c rest = refl
slots_of-append (d ∷ cs) c rest = ap (slot d) (slots_of-append cs c rest)

pub set_slot-slots_of :
    (cs : List Command) (c : Command) (rest : Slots)
    → set_slot (slot c) (length cs) (slots_of cs (null_slot rest)) ≡ slots_of cs (slot c rest)
unfolding slots_of set_slot
set_slot-slots_of [] c rest = refl
set_slot-slots_of (d ∷ cs) c rest = ap (slot d) (set_slot-slots_of cs c rest)

pub null_slots-suc : (n k : ℕ) → null_slots (suc n + k) ≡ null_slot (null_slots (n + k))
unfolding null_slots
null_slots-suc n k = eq
  where
    shifted : suc n + k ≡ suc (n + k)
    shifted = omega arith

    eq : null_slots (suc n + k) ≡ null_slots (suc (n + k))
    eq = ap null_slots shifted

-- The array of a new composite, where it is to be filled.
pub new_composite-split :
    (id mindex : ℕ)
    → mindex ≤ max_commands
    → new_composite id
      ≡ composite id unknown 0 (slots_of [] (null_slots (mindex + (max_commands - mindex))))
unfolding new_composite slots_of
new_composite-split id mindex fits =
    let all : max_commands ≡ mindex + (max_commands - mindex) = omega arith in
    ap (λ n. composite id unknown 0 (null_slots n)) all

module _ (k : Classes) (registry : List (List ℕ × Command)) where
  pub read_base-At :
      (id id₀ : ℕ) (mok mok₀ : TriBool) (rest : List ℕ) (b : BinaryBuffer)
      → At b (bytes (base_parts k id mok) ++ rest)
      → (b' : BinaryBuffer) × (read_object k.blank (base_parts k id₀ mok₀) b
          ≡ (base_parts k id mok, b'))
        × At b' rest
  read_base-At id id₀ mok mok₀ rest b at =
      read_object-At k.blank (base_parts k id mok) (base_parts k id₀ mok₀) rest b
        (refl, (length-memory k.native 8 id ∙ sym (length-memory k.native 8 id₀)), (refl, refl, tt))
        at

  -- The class information is read, and the registry makes the object.
  pub read_next-At :
      (read_one : Command → BinaryBuffer → ReadResult) (info rest : List ℕ) (c : Command)
      (b : BinaryBuffer)
      → length info ≡ k.info_size
      → create k registry info ≡ some c
      → At b (info ++ rest)
      → (b' : BinaryBuffer) × (read_next k registry read_one b ≡ read_one c b') × At b' rest
  unfolding read_next read_into
  read_next-At read_one info rest c b size known at =
      let (b', eq, at') = read-At k.info_size info rest b size at in
      (
        b',
        ap
              (λ (r : BinaryBuffer × Option (List ℕ)).
                made_then (create k registry (read_into k.blank r.1)) r.0 read_one)
              eq
            ∙ ap (λ o. made_then o b' read_one) known,
        at',
      )
