-- ===== src/Command/Stream/Bytes.antt =====
-- The bytes that a tree of commands writes.
use pensar.Base.{
  ℕ, zero, suc, ◌-◌, ◌^◌, ◌≤◌, ◌<◌, ◌≡◌, refl, ap, sym, ◌∙◌, true, if◌then◌else◌, some, List, [],
  ◌++◌, append_assoc, append-nil, arith,
}
use pensar.TriBool.{unknown}
use pensar.BinaryBuffer.{BinaryBuffer, write}
use pensar.BinaryBuffer.Streams.{IsExact, write-IsExact}
use pensar.ObjectFormat.{write_object}
use pensar.ObjectFormat.RoundTrip.{bytes, write_object-bytes}
use pensar.WireTypes.Storage.{memory}
use pensar.Command.{
  Command, leaf, composite, Slots, end, null_slot, freed_slot, slot, max_commands, null_slots,
  new_composite,
}
use pensar.Command.Stream.{Classes, base_parts, buffer_then, write_command, write_slots, create}

-- The second buffer is the first with these bytes at its end.
abbrev pub Appends : BinaryBuffer → List ℕ → BinaryBuffer → Type 0
Appends b src b' = (b'.buffer ≡ b.buffer ++ src) × (b'.read_pos ≡ b.read_pos) × IsExact b'

Appends-Appends :
    (b b₁ b₂ : BinaryBuffer) (x y : List ℕ)
    → Appends b x b₁
    → Appends b₁ y b₂
    → Appends b (x ++ y) b₂
Appends-Appends b b₁ b₂ x y (held, pos, exact) (held', pos', exact') =
    (held' ∙ ap (λ t. t ++ y) held ∙ append_assoc b.buffer x y, pos' ∙ pos, exact')

module _ (k : Classes) where
  unfoldable mutual
    pub command_bytes : Command → List ℕ
    command_bytes (leaf id mok kind) = k.leaf_info kind ++ bytes (base_parts k id mok)
    command_bytes (composite id mok mindex slots) =
        k.composite_info
        ++ (bytes (base_parts k id mok) ++ (memory k.native 8 mindex ++ slots_bytes slots mindex))

    pub slots_bytes : Slots → ℕ → List ℕ
    slots_bytes end n = []
    slots_bytes (null_slot rest) n = []
    slots_bytes (freed_slot rest) n = []
    slots_bytes (slot c rest) zero = []
    slots_bytes (slot c rest) (suc n) = command_bytes c ++ slots_bytes rest n

  module _ (registry : List (List ℕ × Command)) where
    -- The identifiers fit eight bytes; the registry knows the class of each command, which writes its
    -- class information first; and behind the `mindex` commands of a composite, its array has null
    -- pointers.
    unfoldable mutual
      pub IsStorable : Command → Type 0
      IsStorable (leaf id mok kind) =
          (id < 256 ^ 8)
          × ((id₀ : ℕ) × (create k registry (k.leaf_info kind) ≡ some (leaf id₀ unknown kind)))
          × (k.leads kind ≡ true)
      IsStorable (composite id mok mindex slots) =
          (id < 256 ^ 8)
          × (mindex ≤ max_commands)
          × ((id₀ : ℕ) × (create k registry k.composite_info ≡ some (new_composite id₀)))
          × AreStorable slots mindex (max_commands - mindex)

      pub AreStorable : Slots → ℕ → ℕ → Type 0
      AreStorable end zero nulls = end ≡ null_slots nulls
      AreStorable (null_slot rest) zero nulls = null_slot rest ≡ null_slots nulls
      AreStorable (freed_slot rest) zero nulls = freed_slot rest ≡ null_slots nulls
      AreStorable (slot c rest) zero nulls = slot c rest ≡ null_slots nulls
      AreStorable end (suc n) nulls = zero ≡ 1
      AreStorable (null_slot rest) (suc n) nulls = zero ≡ 1
      AreStorable (freed_slot rest) (suc n) nulls = zero ≡ 1
      AreStorable (slot c rest) (suc n) nulls = IsStorable c × AreStorable rest n nulls

    mutual
      unfolding write_command command_bytes IsStorable

      pub write_command-Appends :
          (c : Command) (b : BinaryBuffer)
          → IsStorable c
          → IsExact b
          → (b' : BinaryBuffer) × (write_command k c b ≡ some b') × Appends b (command_bytes c) b'
      write_command-Appends (leaf id mok kind) b stored exact =
          let head = write-IsExact (k.leaf_info kind) b exact in
          (
            write_object (base_parts k id mok) (write (k.leaf_info kind) b),
            ap
                (λ t. some (
                  write_object (base_parts k id mok) (if t then write (k.leaf_info kind) b else b)))
                stored.2,
            Appends-Appends b (write (k.leaf_info kind) b)
                (write_object (base_parts k id mok) (write (k.leaf_info kind) b)) (k.leaf_info kind)
                (bytes (base_parts k id mok)) head
                (write_object-bytes (base_parts k id mok) (write (k.leaf_info kind) b) head.2),
          )
      write_command-Appends (composite id mok mindex slots) b stored exact =
          let b₁ = write k.composite_info b in
          let b₂ = write_object (base_parts k id mok) b₁ in
          let b₃ = write (memory k.native 8 mindex) b₂ in
          let head = write-IsExact k.composite_info b exact in
          let base = write_object-bytes (base_parts k id mok) b₁ head.2 in
          let count = write-IsExact (memory k.native 8 mindex) b₂ base.2 in
          let (b₄, eq, others) =
            write_slots-Appends slots mindex (max_commands - mindex) b₃ stored.3 count.2 in
          (
            b₄,
            eq,
            Appends-Appends b b₁ b₄ k.composite_info
                (bytes (base_parts k id mok)
                  ++ (memory k.native 8 mindex ++ slots_bytes slots mindex))
                head
                (Appends-Appends b₁ b₂ b₄ (bytes (base_parts k id mok))
                  (memory k.native 8 mindex ++ slots_bytes slots mindex) base
                  (Appends-Appends b₂ b₃ b₄ (memory k.native 8 mindex) (slots_bytes slots mindex)
                    count others)),
          )

      pub write_slots-Appends :
          (slots : Slots) (n nulls : ℕ) (b : BinaryBuffer)
          → AreStorable slots n nulls
          → IsExact b
          → (b' : BinaryBuffer) × (write_slots k slots n b ≡ some b')
            × Appends b (slots_bytes slots n) b'
      write_slots-Appends end zero nulls b stored exact =
          (b, refl, (sym (append-nil b.buffer), refl, exact))
      write_slots-Appends (null_slot rest) zero nulls b stored exact =
          (b, refl, (sym (append-nil b.buffer), refl, exact))
      write_slots-Appends (freed_slot rest) zero nulls b stored exact =
          (b, refl, (sym (append-nil b.buffer), refl, exact))
      write_slots-Appends (slot c rest) zero nulls b stored exact =
          (b, refl, (sym (append-nil b.buffer), refl, exact))
      write_slots-Appends end (suc n) nulls b stored exact = absurd (omega (arith, stored))
      write_slots-Appends (null_slot rest) (suc n) nulls b stored exact =
          absurd (omega (arith, stored))
      write_slots-Appends (freed_slot rest) (suc n) nulls b stored exact =
          absurd (omega (arith, stored))
      write_slots-Appends (slot c rest) (suc n) nulls b stored exact =
          let (b₁, eq, first) = write_command-Appends c b stored.0 exact in
          let (b₂, eq', others) = write_slots-Appends rest n nulls b₁ stored.1 first.2 in
          (
            b₂,
            ap (λ o. buffer_then o (write_slots k rest n)) eq ∙ eq',
            Appends-Appends b b₁ b₂ (command_bytes c) (slots_bytes rest n) first others,
          )
