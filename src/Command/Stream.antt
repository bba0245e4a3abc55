-- ===== src/Command/Stream.antt =====
-- cpp/src/command.hpp: `write` and `read` of the commands, and `CommandRegistry`, which makes the
-- object that a read fills. A `ClassInfo` is its bytes. The registry holds the object that a creator
-- makes; the identifier that the generator gives it is left open, as the read replaces it. Fuel
-- counts the composites that stand in one another.
mod Bytes
mod Reading
mod Steps
pub mod RoundTrip
pub mod Unknown
pub mod Sizes
pub mod Registry
mod Examples
use pensar.Base.{
  Bool, ◌+◌, ℕ, zero, suc, Option, none, some, List, [], ◌∷◌, get_or, ltb, if◌then◌else◌,
}
use pensar.TriBool.{TriBool, unknown}
use pensar.ByteOrder.{StdEndian}
use pensar.WireTypes.Storage.{memory, from_memory}
use pensar.BinaryBuffer.{BinaryBuffer, write, read}
use pensar.ObjectFormat.{Part, same_bytes, write_object, read_into, read_object}
use pensar.Command.{
  Command, leaf, composite, Slots, end, null_slot, freed_slot, slot, max_commands, set_slot,
}

-- The machine, the bytes of the class information of each class, those of one that was just
-- constructed, and the name that the bytes give. A derived class whose own `write` puts its class
-- information first, as that of `NullCommand` does, is said to lead; one that inherits `write` of
-- `Command` puts none there.
pub record Classes : Type 0 where
  pub native : StdEndian
  pub object_info : List ℕ
  pub command_info : List ℕ
  pub composite_info : List ℕ
  pub leaf_info : ℕ → List ℕ
  pub leads : ℕ → Bool
  pub info_size : ℕ
  pub blank : List ℕ
  pub full_class_name : List ℕ → List ℕ

-- `registry[name] = …`
pub register_type : List ℕ → Command → List (List ℕ × Command) → List (List ℕ × Command)
unfolding same_bytes
register_type name made [] = (name, made) ∷ []
register_type name made (r ∷ rs) =
    let rest = register_type name made rs in
    if same_bytes r.0 name then (name, made) ∷ rs else r ∷ rest

pub find_creator : List ℕ → List (List ℕ × Command) → Option Command
unfolding same_bytes
find_creator name [] = none
find_creator name (r ∷ rs) =
    let later = find_creator name rs in if same_bytes r.0 name then some r.1 else later

abbrev pub buffer_then :
    Option BinaryBuffer → (BinaryBuffer → Option BinaryBuffer) → Option BinaryBuffer
buffer_then none f = none
buffer_then (some b) f = f b

abbrev pub add_sizes : Option ℕ → Option ℕ → Option ℕ
add_sizes none b = none
add_sizes (some a) none = none
add_sizes (some a) (some b) = some (a + b)

-- How a read ends: with the object and the buffer; on an unknown class; by a write outside the
-- array of a composite; or without fuel.
pub data ReadResult : Type 0 where
  was_read : Command → BinaryBuffer → ReadResult
  unknown_type : BinaryBuffer → ReadResult
  outside_array no_fuel : ReadResult

pub data SlotsRead : Type 0 where
  slots_read : Slots → BinaryBuffer → SlotsRead
  slots_outside slots_no_fuel : SlotsRead

-- The read goes on with the object that the registry made, if it made one.
abbrev pub made_then :
    Option Command → BinaryBuffer → (Command → BinaryBuffer → ReadResult) → ReadResult
made_then none b f = unknown_type b
made_then (some c) b f = f c b

-- `mcommands[i] = cmd`, and the rest of the loop.
abbrev pub store_then : ReadResult → ℕ → Slots → (Slots → BinaryBuffer → SlotsRead) → SlotsRead
unfolding set_slot
store_then (was_read c b) i slots f =
    if ltb i max_commands then f (set_slot (slot c) i slots) b else slots_outside
store_then (unknown_type b) i slots f = slots_read slots b
store_then outside_array i slots f = slots_outside
store_then no_fuel i slots f = slots_no_fuel

abbrev pub of_slots : ℕ → TriBool → ℕ → SlotsRead → ReadResult
of_slots id mok mindex (slots_read slots b) = was_read (composite id mok mindex slots) b
of_slots id mok mindex slots_outside = outside_array
of_slots id mok mindex slots_no_fuel = no_fuel

module _ (k : Classes) where
  -- `Object` and `Command` each write a part.
  abbrev pub base_parts : ℕ → TriBool → List Part
  base_parts id mok =
      record { info = k.object_info; data_bytes = memory k.native 8 id }
      ∷ record { info = k.command_info; data_bytes = mok.mvalue ∷ [] }
      ∷ []

  abbrev pub part_id : List Part → ℕ
  part_id [] = 0
  part_id (p ∷ ps) = from_memory k.native p.data_bytes

  abbrev pub part_mok : List Part → TriBool
  part_mok [] = unknown
  part_mok (p ∷ []) = unknown
  part_mok (p ∷ q ∷ ps) = record { mvalue = get_or q.data_bytes 0 0 }

  mutual
    unfolding write write_object

    -- A derived class writes its class information, if it leads, and what `Command` writes.
    pub write_command : Command → BinaryBuffer → Option BinaryBuffer
    write_command (leaf id mok kind) b =
        some (
          write_object (base_parts id mok) (if k.leads kind then write (k.leaf_info kind) b else b))
    write_command (composite id mok mindex slots) b = write_slots slots mindex (
        write (memory k.native 8 mindex)
          (write_object (base_parts id mok) (write k.composite_info b)))

    pub write_slots : Slots → ℕ → BinaryBuffer → Option BinaryBuffer
    write_slots end zero b = some b
    write_slots (null_slot rest) zero b = some b
    write_slots (freed_slot rest) zero b = some b
    write_slots (slot c rest) zero b = some b
    write_slots end (suc n) b = none
    write_slots (null_slot rest) (suc n) b = none
    write_slots (freed_slot rest) (suc n) b = none
    write_slots (slot c rest) (suc n) b = buffer_then (write_command c b) (write_slots rest n)

  mutual
    -- The virtual `size`: that of `Command` for a derived class, which has none of its own, and that
    -- of `CompositeCommand`, with a loop over the commands.
    pub command_size : Command → Option ℕ
    command_size (leaf id mok kind) = some ((1 + k.info_size) + (8 + k.info_size))
    command_size (composite id mok mindex slots) =
        add_sizes (some (8 + k.info_size)) (slots_size slots mindex)

    pub slots_size : Slots → ℕ → Option ℕ
    slots_size end zero = some 0
    slots_size (null_slot rest) zero = some 0
    slots_size (freed_slot rest) zero = some 0
    slots_size (slot c rest) zero = some 0
    slots_size end (suc n) = none
    slots_size (null_slot rest) (suc n) = none
    slots_size (freed_slot rest) (suc n) = none
    slots_size (slot c rest) (suc n) = add_sizes (command_size c) (slots_size rest n)

  module _ (registry : List (List ℕ × Command)) where
    pub create : List ℕ → Option Command
    unfolding find_creator
    create info = find_creator (k.full_class_name info) registry

    -- The class information, the object that the registry makes for it, and the rest of it.
    pub read_next : (Command → BinaryBuffer → ReadResult) → BinaryBuffer → ReadResult
    unfolding create read read_into
    read_next read_one b =
        let (b₁, got) = read k.info_size b in made_then (create (read_into k.blank got)) b₁ read_one

    -- The loop of `CompositeCommand::read`: the commands left, and `i`.
    pub read_slots :
        (Command → BinaryBuffer → ReadResult) → ℕ → ℕ → Slots → BinaryBuffer → SlotsRead
    unfolding read_next
    read_slots read_one zero i slots b = slots_read slots b
    read_slots read_one (suc left) i slots b =
        store_then (read_next read_one b) i slots (read_slots read_one left (suc i))

    pub read_command : ℕ → Command → BinaryBuffer → ReadResult
    unfolding read_slots read_object read read_into
    read_command zero c b = no_fuel
    read_command (suc fuel) (leaf id mok kind) b =
        let (ps, b₁) = read_object k.blank (base_parts id mok) b in
        was_read (leaf (part_id ps) (part_mok ps) kind) b₁
    read_command (suc fuel) (composite id mok mindex slots) b =
        let (ps, b₁) = read_object k.blank (base_parts id mok) b in
        let (b₂, got) = read 8 b₁ in
        let count = from_memory k.native (read_into (memory k.native 8 mindex) got) in
        of_slots (part_id ps) (part_mok ps) count (read_slots (read_command fuel) count 0 slots b₂)
