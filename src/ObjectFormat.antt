-- ===== src/ObjectFormat.antt =====
-- The binary format of objects: `write` and `read` of cpp/src/object.hpp, and of the classes that
-- add a part of their own, as cpp/src/generator.hpp and contact/person.hpp do. A part is the bytes
-- of its `ClassInfo` and of its data; an object is a row of parts, that of `Object` first. The
-- bytes that a `ClassInfo` has before a read are a parameter.
pub mod RoundTrip
mod Examples
use pensar.Base.{
  ℕ, ◌+◌, Bool, true, false, ◌&&◌, not, Option, none, some, List, [], ◌∷◌, length, ◌==◌,
  if◌then◌else◌,
}
use pensar.BinaryBuffer.{BinaryBuffer, write, read}

pub record Part : Type 0 where
  pub info : List ℕ
  pub data_bytes : List ℕ

-- `info != INFO` compares the bytes.
unfoldable pub same_bytes : List ℕ → List ℕ → Bool
same_bytes [] [] = true
same_bytes [] (y ∷ ys) = false
same_bytes (x ∷ xs) [] = false
same_bytes (x ∷ xs) (y ∷ ys) = x == y && same_bytes xs ys

pub write_part : Part → BinaryBuffer → BinaryBuffer
unfolding write
write_part p b = write p.data_bytes (write p.info b)

unfoldable pub write_object : List Part → BinaryBuffer → BinaryBuffer
unfolding write_part
write_object [] b = b
write_object (p ∷ ps) b = write_object ps (write_part p b)

-- What a read leaves in its destination.
unfoldable pub read_into : List ℕ → Option (List ℕ) → List ℕ
read_into old none = old
read_into old (some bytes) = bytes

module _ (blank : List ℕ) where
  pub read_part : Part → BinaryBuffer → Part × BinaryBuffer
  unfolding read same_bytes read_into
  read_part p b =
      let (b₁, got_info) = read (length p.info) b in
      let (b₂, got_data) = read (length p.data_bytes) b₁ in
      if not (same_bytes (read_into blank got_info) p.info)
      then (p, b₁)
      else (record p { data_bytes = read_into p.data_bytes got_data }, b₂)

  unfoldable pub read_object : List Part → BinaryBuffer → List Part × BinaryBuffer
  unfolding read_part
  read_object [] b = ([], b)
  read_object (p ∷ ps) b =
      let (p', b₁) = read_part p b in let (ps', b₂) = read_object ps b₁ in (p' ∷ ps', b₂)
