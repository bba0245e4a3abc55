-- ===== src/Command/Stream/Sizes.antt =====
-- The size that a tree of commands reports, and the bytes that it writes.
use pensar.Base.{
  ℕ, zero, suc, ◌+◌, ◌-◌, ◌≡◌, refl, ap, ap₂, some, List, [], ◌∷◌, ◌++◌, length, length-append,
  arith,
}
use pensar.TriBool.{TriBool}
use pensar.BinaryBuffer.{BinaryBuffer, new_buffer, size}
use pensar.ObjectFormat.RoundTrip.{bytes}
use pensar.WireTypes.Storage.{memory, length-memory}
use pensar.Command.{Command, leaf, composite, Slots, end, null_slot, freed_slot, slot, max_commands}
use pensar.Command.Stream.{Classes, base_parts, add_sizes, command_size, slots_size, write_command}
use pensar.Command.Stream.Bytes.{
  command_bytes, slots_bytes, IsStorable, AreStorable, write_command-Appends,
}

module _ (k : Classes) where
  abbrev mutual
    -- What the bytes of a command have beyond its `size`: one class information for a leaf, and two,
    -- with the nine bytes of an identifier and of `mok`, for a composite.
    pub unreported : Command → ℕ
    unreported (leaf id mok kind) = k.info_size
    unreported (composite id mok mindex slots) =
        (k.info_size + k.info_size + 9) + slots_unreported slots mindex

    pub slots_unreported : Slots → ℕ → ℕ
    slots_unreported end n = 0
    slots_unreported (null_slot rest) n = 0
    slots_unreported (freed_slot rest) n = 0
    slots_unreported (slot c rest) zero = 0
    slots_unreported (slot c rest) (suc n) = unreported c + slots_unreported rest n

module _ (k : Classes) (registry : List (List ℕ × Command))
    (sized_object : length k.object_info ≡ k.info_size)
    (sized_command : length k.command_info ≡ k.info_size)
    (sized : (kind : ℕ) → length (k.leaf_info kind) ≡ k.info_size)
    (sized_composite : length k.composite_info ≡ k.info_size) where
  length-base_parts :
      (id : ℕ) (mok : TriBool)
      → length (bytes (base_parts k id mok)) ≡ (k.info_size + 8) + (k.info_size + 1)
  length-base_parts id mok = omega (
    arith,
    length-append k.object_info (memory k.native 8 id ++ (k.command_info ++ (mok.mvalue ∷ []))),
    length-append (memory k.native 8 id) (k.command_info ++ (mok.mvalue ∷ [])),
    length-append k.command_info (mok.mvalue ∷ []),
    length-memory k.native 8 id,
    sized_object,
    sized_command,
  )

  mutual
    unfolding command_bytes command_size IsStorable

    command_size-eq :
        (c : Command)
        → IsStorable k registry c
        → (n : ℕ) × (command_size k c ≡ some n) × (length (command_bytes k c) ≡ n + unreported k c)
    command_size-eq (leaf id mok kind) stored = (
      (1 + k.info_size) + (8 + k.info_size),
      refl,
      omega (
        arith,
        length-append (k.leaf_info kind) (bytes (base_parts k id mok)),
        length-base_parts id mok,
        sized kind,
      ),
    )
    command_size-eq (composite id mok mindex slots) stored =
        let (n, eq, fits) = slots_size-eq slots mindex (max_commands - mindex) stored.3 in
        let count = memory k.native 8 mindex in
        let others = slots_bytes k slots mindex in
        let parts = bytes (base_parts k id mok) in
        (
          (8 + k.info_size) + n,
          ap (add_sizes (some (8 + k.info_size))) eq,
          omega (
            arith,
            length-append k.composite_info (parts ++ (count ++ others)),
            length-append parts (count ++ others),
            length-append count others,
            length-memory k.native 8 mindex,
            length-base_parts id mok,
            sized_composite,
            fits,
          ),
        )

    slots_size-eq :
        (slots : Slots) (n nulls : ℕ)
        → AreStorable k registry slots n nulls
        → (s : ℕ) × (slots_size k slots n ≡ some s)
          × (length (slots_bytes k slots n) ≡ s + slots_unreported k slots n)
    slots_size-eq end zero nulls stored = (0, refl, omega arith)
    slots_size-eq (null_slot rest) zero nulls stored = (0, refl, omega arith)
    slots_size-eq (freed_slot rest) zero nulls stored = (0, refl, omega arith)
    slots_size-eq (slot c rest) zero nulls stored = (0, refl, omega arith)
    slots_size-eq end (suc n) nulls stored = absurd (omega (arith, stored))
    slots_size-eq (null_slot rest) (suc n) nulls stored = absurd (omega (arith, stored))
    slots_size-eq (freed_slot rest) (suc n) nulls stored = absurd (omega (arith, stored))
    slots_size-eq (slot c rest) (suc n) nulls stored =
        let (a, eq, fits) = command_size-eq c stored.0 in
        let (b, eq', fits') = slots_size-eq rest n nulls stored.1 in
        (
          a + b,
          ap₂ add_sizes eq eq',
          omega (arith, length-append (command_bytes k c) (slots_bytes k rest n), fits, fits'),
        )

  -- A command that can be stored, with all in its tree, is written into a new buffer, and what the buffer holds then is
  -- longer than the command's `size` by just this: one class information for each command in the
  -- tree that is no composite, and two class informations and nine bytes for each composite; the
  -- class information has one size for all classes.
  pub command_size-write_command :
      (c : Command) (reserve : ℕ)
      → IsStorable k registry c
      → (b : BinaryBuffer) × (n : ℕ) × (write_command k c (new_buffer reserve) ≡ some b)
        × (command_size k c ≡ some n)
        × (size b ≡ n + unreported k c)
  unfolding new_buffer size
  command_size-write_command c reserve stored =
      let (b, written, (held, pos, exact)) =
        write_command-Appends k registry c (new_buffer reserve) stored refl in
      let (n, eq, fits) = command_size-eq c stored in
      (b, n, written, eq, omega (arith, fits, exact, ap length held))
