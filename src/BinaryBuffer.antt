-- ===== src/BinaryBuffer.antt =====
-- cpp/src/binary_buffer.hpp: `BinaryBuffer`, a growing byte vector with a write and a read position.
-- Bytes are numbers. `std::memcpy` into the vector is `overwrite`; what the file functions of C
-- report (`fopen`, `ftell`, `fread`, `fwrite`) is an argument.
pub mod Laws
pub mod Streams
pub mod Cursor
pub mod Files
mod Examples
use pensar.Base.{
  ℕ, ◌+◌, ◌-◌, Bool, Option, none, some, List, [], ◌++◌, ltb, ◌==◌, if◌then◌else◌, length, take,
  drop, replicate,
}

pub record BinaryBuffer : Type 0 where
  pub buffer : List ℕ
  pub write_pos : ℕ
  pub read_pos : ℕ

-- The constructor; `reserve` allocates, and adds no byte.
unfoldable pub new_buffer : ℕ → BinaryBuffer
new_buffer reserve = record { buffer = []; write_pos = 0; read_pos = 0 }

-- `std::vector::resize`: new bytes are zero.
unfoldable pub resize : ℕ → List ℕ → List ℕ
resize n bytes =
    if ltb (length bytes) n then bytes ++ replicate (n - length bytes) 0 else take n bytes

-- `std::memcpy (bytes.data () + at, src.data (), src.size ())`
unfoldable pub overwrite : ℕ → List ℕ → List ℕ → List ℕ
overwrite at src bytes = take at bytes ++ (src ++ drop (at + length src) bytes)

-- The view of what was written.
pub data_of : BinaryBuffer → List ℕ
data_of b = take b.write_pos b.buffer

unfoldable pub size : BinaryBuffer → ℕ
size b = b.write_pos

pub clear : BinaryBuffer → BinaryBuffer
clear b = record b { write_pos = 0; read_pos = 0 }

unfoldable pub write : List ℕ → BinaryBuffer → BinaryBuffer
unfolding resize overwrite
write src b =
    let required = b.write_pos + length src in
    let grown = if ltb (length b.buffer) required then resize required b.buffer else b.buffer in
    record b { buffer = overwrite b.write_pos src grown; write_pos = required }

-- A read of `n` bytes; `none` is the message on the error stream, with the destination unchanged.
unfoldable pub read : ℕ → BinaryBuffer → BinaryBuffer × Option (List ℕ)
read n b =
    if ltb (length b.buffer) (b.read_pos + n)
    then (b, none)
    else (record b { read_pos = b.read_pos + n }, some (take n (drop b.read_pos b.buffer)))

-- The messages of the two file operations, in the order of the source.
pub data FileResult : Type 0 where
  file_ok : FileResult
  cannot_open_for_writing not_all_written : FileResult
  cannot_open_for_reading no_file_size read_mismatch : FileResult

-- `none` says that `fopen` failed, else the argument tells how many bytes `fwrite` accepts.
-- The second component is what the file then holds, if it was opened.
pub save_to_file : Option (ℕ → ℕ) → BinaryBuffer → FileResult × Option (List ℕ)
unfolding data_of
save_to_file none b = (cannot_open_for_writing, none)
save_to_file (some fwrite) b =
    let written = fwrite b.write_pos in
    (if written == b.write_pos then file_ok else not_all_written, some (take written (data_of b)))

-- A file opened for reading: what `ftell` reports at its end (`none` is a negative number), its
-- bytes, and how many of those asked for `fread` delivers.
pub record OpenFile : Type 0 where
  pub tell : Option ℕ
  pub bytes : List ℕ
  pub fread : ℕ → ℕ

load_sized : ℕ → OpenFile → BinaryBuffer → BinaryBuffer × FileResult
unfolding resize overwrite
load_sized file_size f b =
    let read_bytes = f.fread file_size in
    let filled = overwrite 0 (take read_bytes f.bytes) (resize file_size b.buffer) in
    if read_bytes == file_size
    then (record { buffer = filled; write_pos = file_size; read_pos = 0 }, file_ok)
    else (record b { buffer = filled }, read_mismatch)

load_opened : Option ℕ → OpenFile → BinaryBuffer → BinaryBuffer × FileResult
unfolding load_sized
load_opened none f b = (b, no_file_size)
load_opened (some file_size) f b = load_sized file_size f b

pub load_from_file : Option OpenFile → BinaryBuffer → BinaryBuffer × FileResult
unfolding load_opened
load_from_file none b = (b, cannot_open_for_reading)
load_from_file (some f) b = load_opened f.tell f b
