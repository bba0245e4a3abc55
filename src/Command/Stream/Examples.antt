-- ===== src/Command/Stream/Examples.antt =====
-- Trees of commands written and read, and the theorems at concrete trees.
use pensar.Base.{
  true, ◌+◌, length, ℕ, ◌≡◌, refl, some, List, [], ◌∷◌, drop, arith, ◌==◌, if◌then◌else◌,
}
use pensar.TriBool.{unknown, tri_true}
use pensar.ByteOrder.{little}
use pensar.BinaryBuffer.{BinaryBuffer, new_buffer, size}
use pensar.Command.{Command, leaf, composite, slot, null_slots, new_composite}
use pensar.Command.Stream.{
  Classes, write_command, read_next, read_command, was_read, register_type, create, command_size,
}
use pensar.Command.Stream.Bytes.{IsStorable}
use pensar.Command.Stream.Reading.{depth}
use pensar.Command.Stream.RoundTrip.{read_next-write_command}
use pensar.Command.Stream.Sizes.{unreported, command_size-write_command}

-- Class information of one byte.
abbrev classes : Classes
classes = record {
  native = little;
  object_info = 1 ∷ [];
  command_info = 2 ∷ [];
  composite_info = 3 ∷ [];
  leaf_info = λ kind. if kind == 7 then 7 ∷ [] else 8 ∷ [];
  leads = λ kind. true;
  info_size = 1;
  blank = 0 ∷ [];
  full_class_name = λ info. info;
}

abbrev known : List (List ℕ × Command)
known = ((7 ∷ []), leaf 0 unknown 7) ∷ ((3 ∷ []), new_composite 0) ∷ []

registered : register_type (3 ∷ []) (new_composite 0) (((7 ∷ []), leaf 0 unknown 7) ∷ []) ≡ known
unfolding register_type
registered = refl

abbrev inner : Command
inner = composite 300 tri_true 1 (slot (leaf 5 tri_true 7) (null_slots 9))

abbrev tree : Command
tree = composite 3 unknown 2 (slot (leaf 4 unknown 7) (slot inner (null_slots 8)))

sizes : (kind : ℕ) → length (classes.leaf_info kind) ≡ classes.info_size
sizes kind = ground arith

tree-IsStorable : IsStorable classes known tree
unfolding IsStorable create new_composite null_slots
tree-IsStorable = (
  omega arith,
  omega arith,
  (0, refl),
  (
    (omega arith, (0, refl), refl),
    ((omega arith, omega arith, (0, refl), ((omega arith, (0, refl), refl), refl)), refl),
  ),
)

read_next-write_command_example :
    (b b' : BinaryBuffer) × (write_command classes tree (new_buffer 64) ≡ some b)
    × (read_next classes known (read_command classes known 3) b ≡ was_read tree b')
    × (drop b'.read_pos b'.buffer ≡ [])
unfolding depth null_slots
read_next-write_command_example =
    read_next-write_command classes known sizes refl tree 3 64 tree-IsStorable (omega arith)

command_size-write_command_example :
    (b : BinaryBuffer) × (n : ℕ) × (write_command classes tree (new_buffer 64) ≡ some b)
    × (command_size classes tree ≡ some n)
    × (size b ≡ n + unreported classes tree)
command_size-write_command_example =
    command_size-write_command classes known refl refl sizes refl tree 64 tree-IsStorable

-- Three commands and no more are known to be in the buffer; the second is of class 8.
abbrev mixed_buffer : BinaryBuffer
mixed_buffer = record { buffer = 8 ∷ 1 ∷ 2 ∷ []; write_pos = 3; read_pos = 0 }
