-- ===== src/BinaryBuffer/Files.antt =====
-- `save_to_file` and `load_from_file`, on every outcome of the C file functions.
use pensar.Base.{
  ℕ, ◌+◌, ◌≤◌, ◌<◌, ◌≡◌, refl, ap, none, some, List, [], ◌++◌, arith, length, take, drop,
  length-append, length-drop, length-take, append-nil, take_all, drop_all, ◌∙◌,
}
use pensar.BinaryBuffer.{
  BinaryBuffer, resize, overwrite, data_of, save_to_file, load_from_file, load_opened, load_sized,
  OpenFile, file_ok, cannot_open_for_reading, no_file_size, read_mismatch,
}
use pensar.BinaryBuffer.Laws.{IsValid, length-resize, length_data}

-- A copy over the whole of a vector leaves only what was copied.
overwrite_whole : (src bytes : List ℕ) → length src ≡ length bytes → overwrite 0 src bytes ≡ src
unfolding overwrite
overwrite_whole src bytes e =
    ap (λ t. src ++ t) (drop_all (0 + length src) bytes (omega arith)) ∙ append-nil src

length-overwrite :
    (src bytes : List ℕ) → length src ≤ length bytes → length (overwrite 0 src bytes) ≡ length bytes
unfolding overwrite
length-overwrite src bytes h =
    omega
      (arith, length-append src (drop (0 + length src) bytes), length-drop (0 + length src) bytes)

-- A file that is read in full and is as long as it says.
abbrev pub whole_file : List ℕ → OpenFile
whole_file bytes = record { tell = some (length bytes); bytes = bytes; fread = λ n. n }

load_whole :
    (bytes : List ℕ) (b : BinaryBuffer)
    → load_from_file (some (whole_file bytes)) b
      ≡ (record { buffer = bytes; write_pos = length bytes; read_pos = 0 }, file_ok)
unfolding load_from_file
load_whole bytes b = ground (
  arith,
  take_all (length bytes) bytes,
  overwrite_whole bytes (resize (length bytes) b.buffer),
  length-resize (length bytes) b.buffer,
)

-- What a valid buffer saves, with every byte accepted, is its written bytes, and any other buffer
-- that loads the file in full then holds just these, unread.
pub load-save_to_file :
    (b c : BinaryBuffer)
    → IsValid b
    → (bytes : List ℕ) × (save_to_file (some (λ n. n)) b ≡ (file_ok, some bytes))
      × ((load_from_file (some (whole_file bytes)) c).1 ≡ file_ok)
      × (data_of (load_from_file (some (whole_file bytes)) c).0 ≡ data_of b)
      × ((load_from_file (some (whole_file bytes)) c).0.read_pos ≡ 0)
unfolding save_to_file
load-save_to_file b c valid = (
  data_of b,
  ground (arith, take_all b.write_pos (data_of b), length_data [] b valid),
  rw (load_whole (data_of b) c),
  rw (load_whole (data_of b) c)
      (unfold data_of in take_all (length (data_of b)) (data_of b) (omega arith)),
  rw (load_whole (data_of b) c),
)

load_short :
    (b : BinaryBuffer) (f : OpenFile) (file_size : ℕ)
    → f.fread file_size < file_size
    → (load_sized file_size f b
        ≡ (record b { buffer = (load_sized file_size f b).0.buffer }, read_mismatch))
      × (length (load_sized file_size f b).0.buffer ≡ file_size)
unfolding load_sized
load_short b f file_size short = ground (
  arith,
  length-overwrite (take (f.fread file_size) f.bytes) (resize file_size b.buffer),
  length-resize file_size b.buffer,
  length-take (f.fread file_size) f.bytes,
)

-- A file that cannot be opened, or has no size, leaves the buffer as it was. One that delivers
-- fewer bytes than its size, where that is less than what was written before, is reported, but
-- leaves a buffer that is no longer valid.
pub load_from_file_failures :
    (b : BinaryBuffer) (f : OpenFile) (file_size : ℕ)
    → f.tell ≡ some file_size
    → f.fread file_size < file_size
    → file_size < b.write_pos
    → (load_from_file none b ≡ (b, cannot_open_for_reading))
      × (load_from_file (some (record f { tell = none })) b ≡ (b, no_file_size))
      × ((load_from_file (some f) b).1 ≡ read_mismatch)
      × ¬ IsValid (load_from_file (some f) b).0
unfolding load_from_file
load_from_file_failures b f file_size e short small =
    let (kind, invalid) : ((load_from_file (some f) b).1 ≡ read_mismatch)
        × ¬ IsValid (load_from_file (some f) b).0 =
      rw (e, load_opened)
        (ground (arith, load_short b (record f { tell = some file_size }) file_size)) in
    (refl, unfold load_opened in refl, kind, invalid)
