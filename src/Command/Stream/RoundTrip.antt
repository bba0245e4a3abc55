-- ===== src/Command/Stream/RoundTrip.antt =====
-- A tree of commands written and read back.
use pensar.Command.Stream.Steps.{read_leaf, read_composite, read_slots-step, read_slots-none}
use pensar.Base.{
  ℕ, zero, suc, ◌+◌, ◌-◌, ◌≤◌, ◌≡◌, refl, ap, sym, ◌∙◌, some, List, [], ◌∷◌, ◌++◌, length, drop,
  append_assoc, append-nil, length-append, arith,
}
use pensar.TriBool.{unknown}
use pensar.BinaryBuffer.{BinaryBuffer, new_buffer}
use pensar.BinaryBuffer.Cursor.{At, read-At}
use pensar.ObjectFormat.RoundTrip.{bytes}
use pensar.WireTypes.Storage.{memory, length-memory}
use pensar.Command.{
  Command, leaf, composite, Slots, end, null_slot, freed_slot, slot, max_commands, null_slots,
  new_composite,
}
use pensar.Command.Stream.{
  Classes, base_parts, was_read, slots_read, read_next, read_slots, read_command, write_command,
}
use pensar.Command.Stream.Bytes.{
  command_bytes, slots_bytes, IsStorable, AreStorable, write_command-Appends,
}
use pensar.Command.Stream.Reading.{
  depth, depth_slots, slots_of, slots_of-append, new_composite-split, read_base-At, read_next-At,
}

module _ (k : Classes) (registry : List (List ℕ × Command)) where
  module _ (sized : (kind : ℕ) → length (k.leaf_info kind) ≡ k.info_size)
      (sized_composite : length k.composite_info ≡ k.info_size) where
    mutual
      unfolding command_bytes IsStorable depth slots_of

      read_next-command :
          (c : Command) (fuel : ℕ) (rest : List ℕ) (b : BinaryBuffer)
          → IsStorable k registry c
          → depth c ≤ fuel
          → At b (command_bytes k c ++ rest)
          → (b' : BinaryBuffer) × (read_next k registry (read_command k registry fuel) b
              ≡ was_read c b')
            × At b' rest
      read_next-command (leaf id mok kind) zero rest b stored enough at = absurd (omega arith)
      read_next-command (composite id mok mindex slots) zero rest b stored enough at =
          absurd (omega arith)
      read_next-command (leaf id mok kind) (suc fuel) rest b stored enough (inside, e) =
          let (id₀, known) = stored.1 in
          let parts = bytes (base_parts k id mok) in
          let (b₁, eq, at₁) =
            read_next-At k registry (read_command k registry (suc fuel)) (k.leaf_info kind)
              (parts ++ rest) (leaf id₀ unknown kind) b (sized kind) known
              (inside, e ∙ append_assoc (k.leaf_info kind) parts rest) in
          let (b₂, eq', at₂) = read_base-At k registry id id₀ mok unknown rest b₁ at₁ in
          (b₂, eq ∙ read_leaf k registry fuel id id₀ kind mok unknown b₁ b₂ stored.0 eq', at₂)
      read_next-command (composite id mok mindex slots) (suc fuel) rest b stored enough
            (inside, e) =
          let (id₀, known) = stored.2 in
          let parts = bytes (base_parts k id mok) in
          let count = memory k.native 8 mindex in
          let others = slots_bytes k slots mindex in
          let apart : (command_bytes k (composite id mok mindex slots) ++ rest)
              ≡ k.composite_info ++ (parts ++ (count ++ (others ++ rest))) =
            append_assoc k.composite_info (parts ++ (count ++ others)) rest
            ∙ ap (λ t. k.composite_info ++ t)
                (append_assoc parts (count ++ others) rest
                  ∙ ap (λ t. parts ++ t) (append_assoc count others rest)) in
          let (b₁, eq, at₁) =
            read_next-At k registry (read_command k registry (suc fuel)) k.composite_info
              (parts ++ (count ++ (others ++ rest))) (new_composite id₀) b sized_composite known
              (inside, e ∙ apart) in
          let (b₂, base, at₂) =
            read_base-At k registry id id₀ mok unknown (count ++ (others ++ rest)) b₁ at₁ in
          let (b₃, counted, at₃) =
            read-At 8 count (others ++ rest) b₂ (length-memory k.native 8 mindex) at₂ in
          let (b₄, all, at₄) =
            read_slots-command slots mindex (max_commands - mindex) 0 fuel [] rest b₃ stored.3
              (omega arith) refl (omega (arith, stored.1)) at₃ in
          (
            b₄,
            eq
                ∙ ap (λ c. read_command k registry (suc fuel) c b₁)
                    (new_composite-split id₀ mindex stored.1)
                ∙ read_composite k registry fuel id id₀ mindex 0 mok unknown slots
                    (slots_of [] (null_slots (mindex + (max_commands - mindex)))) b₁ b₂ b₃ b₄
                    stored.0 (omega (arith, stored.1)) base counted all,
            at₄,
          )

      read_slots-command :
          (slots : Slots) (n nulls i fuel : ℕ) (done : List Command) (rest : List ℕ)
          (b : BinaryBuffer)
          → AreStorable k registry slots n nulls
          → depth_slots slots n ≤ fuel
          → length done ≡ i
          → i + n ≤ max_commands
          → At b (slots_bytes k slots n ++ rest)
          → (b' : BinaryBuffer) × (read_slots k registry
                (read_command k registry fuel)
                n
                i
                (slots_of done (null_slots (n + nulls)))
                b
              ≡ slots_read (slots_of done slots) b')
            × At b' rest
      read_slots-command end zero nulls i fuel done rest b stored enough size fits at = (
        b,
        read_slots-none k registry (read_command k registry fuel) nulls i done end b stored,
        at,
      )
      read_slots-command (null_slot s) zero nulls i fuel done rest b stored enough size fits at = (
        b,
        read_slots-none k registry (read_command k registry fuel) nulls i done (null_slot s) b
            stored,
        at,
      )
      read_slots-command (freed_slot s) zero nulls i fuel done rest b stored enough size fits at = (
        b,
        read_slots-none k registry (read_command k registry fuel) nulls i done (freed_slot s) b
            stored,
        at,
      )
      read_slots-command (slot c s) zero nulls i fuel done rest b stored enough size fits at = (
        b,
        read_slots-none k registry (read_command k registry fuel) nulls i done (slot c s) b stored,
        at,
      )
      read_slots-command end (suc n) nulls i fuel done rest b stored enough size fits at =
          absurd (omega (arith, stored))
      read_slots-command (null_slot s) (suc n) nulls i fuel done rest b stored enough size fits at =
          absurd (omega (arith, stored))
      read_slots-command (freed_slot s) (suc n) nulls i fuel done rest b stored enough size fits
            at =
          absurd (omega (arith, stored))
      read_slots-command (slot c s) (suc n) nulls i fuel done rest b stored enough size fits
            (inside, e) =
          let (b₁, eq, at₁) =
            read_next-command c fuel (slots_bytes k s n ++ rest) b stored.0 (omega arith)
              (inside, e ∙ append_assoc (command_bytes k c) (slots_bytes k s n) rest) in
          let (b₂, eq', at₂) =
            read_slots-command s n nulls (suc i) fuel (done ++ (c ∷ [])) rest b₁ stored.1
              (omega arith) (omega (arith, length-append done (c ∷ []))) (omega arith) at₁ in
          (
            b₂,
            read_slots-step k registry (read_command k registry fuel) n nulls i done c b b₁ eq size
                  (omega arith)
                ∙ eq'
                ∙ ap (λ t. slots_read t b₂) (slots_of-append done c s),
            at₂,
          )

    -- A tree of commands that the registry knows and that write their class information first, whose
    -- identifiers fit eight bytes and whose composites have null pointers behind their commands, is
    -- written into a new buffer, and is read back the same, to the last byte, with fuel for the
    -- depth of the tree; the class information has one size for all classes.
    pub read_next-write_command :
        (c : Command) (fuel reserve : ℕ)
        → IsStorable k registry c
        → depth c ≤ fuel
        → (b b' : BinaryBuffer) × (write_command k c (new_buffer reserve) ≡ some b)
          × (read_next k registry (read_command k registry fuel) b ≡ was_read c b')
          × (drop b'.read_pos b'.buffer ≡ [])
    unfolding new_buffer
    read_next-write_command c fuel reserve stored enough =
        let (b, written, (held, pos, exact)) =
          write_command-Appends k registry c (new_buffer reserve) stored refl in
        let (b', eq, at) = read_next-command c fuel [] b stored enough (
          omega (arith, pos),
          ap (λ r. drop r b.buffer) pos ∙ held ∙ sym (append-nil (command_bytes k c)),
        ) in
        (b, b', written, eq, at.1)
