-- ===== src/Command/Stream/Steps.antt =====
-- The steps of a read: a leaf, a composite, and one turn of the loop over its commands.
use pensar.Base.{
  ℕ, zero, suc, ◌+◌, ◌^◌, ◌<◌, ◌≡◌, true, ap, sym, ◌∙◌, Option, some, List, [], ◌∷◌, ◌++◌, length,
  arith, ltb, if◌then◌else◌,
}
use native.Mathlib.Nat.{zero-add}
use pensar.TriBool.{TriBool}
use pensar.BinaryBuffer.{BinaryBuffer, read}
use pensar.ObjectFormat.{Part, read_into, read_object}
use pensar.WireTypes.Storage.{memory, from_memory, from_memory-memory}
use pensar.Command.{
  Command, leaf, composite, Slots, null_slot, slot, max_commands, null_slots, set_slot,
}
use pensar.Command.Stream.{
  Classes, base_parts, part_id, part_mok, ReadResult, was_read, store_then, of_slots, slots_read,
  slots_outside, read_next, read_slots, read_command,
}
use pensar.Command.Stream.Reading.{slots_of, slots_of-append, set_slot-slots_of, null_slots-suc}

module _ (k : Classes) (registry : List (List ℕ × Command)) where
  -- The second half of a read, behind the part of `Object` and that of `Command`.
  pub read_leaf :
      (fuel id id₀ kind : ℕ) (mok mok₀ : TriBool) (b b' : BinaryBuffer)
      → id < 256 ^ 8
      → read_object k.blank (base_parts k id₀ mok₀) b ≡ (base_parts k id mok, b')
      → read_command k registry (suc fuel) (leaf id₀ mok₀ kind) b ≡ was_read (leaf id mok kind) b'
  unfolding read_command
  read_leaf fuel id id₀ kind mok mok₀ b b' fits eq =
      ap
        (λ (r : List Part × BinaryBuffer).
          was_read (leaf (part_id k r.0) (part_mok k r.0) kind) r.1)
        eq
      ∙ ap (λ i. was_read (leaf i mok kind) b') (from_memory-memory k.native 8 id fits)

  pub read_composite :
      (fuel id id₀ mindex mindex₀ : ℕ) (mok mok₀ : TriBool) (slots slots₀ : Slots)
      (b b₁ b₂ b₃ : BinaryBuffer)
      → id < 256 ^ 8
      → mindex < 256 ^ 8
      → read_object k.blank (base_parts k id₀ mok₀) b ≡ (base_parts k id mok, b₁)
      → read 8 b₁ ≡ (b₂, some (memory k.native 8 mindex))
      → read_slots k registry (read_command k registry fuel) mindex 0 slots₀ b₂
        ≡ slots_read slots b₃
      → read_command k registry (suc fuel) (composite id₀ mok₀ mindex₀ slots₀) b
        ≡ was_read (composite id mok mindex slots) b₃
  unfolding read_command read_into
  read_composite fuel id id₀ mindex mindex₀ mok mok₀ slots slots₀ b b₁ b₂ b₃ fits fits' base count
        others =
      ap
        (λ (r : List Part × BinaryBuffer).
          let got = read 8 r.1 in finish (part_id k r.0) (part_mok k r.0) got)
        base
      ∙ ap (finish (part_id k (base_parts k id mok)) mok) count
      ∙ ap (λ i. finish i mok (b₂, some (memory k.native 8 mindex)))
          (from_memory-memory k.native 8 id fits)
      ∙ ap
          (λ n.
            of_slots id mok n (read_slots k registry (read_command k registry fuel) n 0 slots₀ b₂))
          (from_memory-memory k.native 8 mindex fits')
      ∙ ap (of_slots id mok mindex) others
    where
      finish : ℕ → TriBool → BinaryBuffer × Option (List ℕ) → ReadResult
      finish i m got =
          let n = from_memory k.native (read_into (memory k.native 8 mindex₀) got.1) in
          of_slots i m n (read_slots k registry (read_command k registry fuel) n 0 slots₀ got.0)

  -- One turn of the loop.
  pub read_slots-step :
      (read_one : Command → BinaryBuffer → ReadResult) (n nulls i : ℕ) (done : List Command)
      (c : Command) (b b' : BinaryBuffer)
      → read_next k registry read_one b ≡ was_read c b'
      → length done ≡ i
      → i < max_commands
      → read_slots k registry read_one (suc n) i (slots_of done (null_slots (suc n + nulls))) b
        ≡ read_slots k registry read_one n
            (suc i)
            (slots_of (done ++ (c ∷ [])) (null_slots (n + nulls)))
            b'
  unfolding read_slots store_then
  read_slots-step read_one n nulls i done c b b' eq size inside =
      ap
        (λ r.
          store_then r i (slots_of done (null_slots (suc n + nulls)))
            (read_slots k registry read_one n (suc i)))
        eq
      ∙ ap (λ t. if t then read_slots k registry read_one n (suc i) stored b' else slots_outside)
          below
      ∙ ap (λ s. read_slots k registry read_one n (suc i) s b') array
    where
      stored : Slots
      stored = set_slot (slot c) i (slots_of done (null_slots (suc n + nulls)))

      below : ltb i max_commands ≡ true
      below = ground arith

      array : stored ≡ slots_of (done ++ (c ∷ [])) (null_slots (n + nulls))
      array =
          ap (λ s. set_slot (slot c) i (slots_of done s)) (null_slots-suc n nulls)
          ∙ ap (λ j. set_slot (slot c) j (slots_of done (null_slot (null_slots (n + nulls)))))
              (sym size)
          ∙ set_slot-slots_of done c (null_slots (n + nulls))
          ∙ sym (slots_of-append done c (null_slots (n + nulls)))

  pub read_slots-none :
      (read_one : Command → BinaryBuffer → ReadResult) (nulls i : ℕ) (done : List Command)
      (slots : Slots) (b : BinaryBuffer)
      → slots ≡ null_slots nulls
      → read_slots k registry read_one zero i (slots_of done (null_slots (zero + nulls))) b
        ≡ slots_read (slots_of done slots) b
  unfolding read_slots
  read_slots-none read_one nulls i done slots b eq =
      ap (λ n. slots_read (slots_of done (null_slots n)) b) (zero-add nulls)
      ∙ ap (λ s. slots_read (slots_of done s) b) (sym eq)
