-- ===== src/BinaryBuffer/Examples.antt =====
-- Runs of `BinaryBuffer`, and its theorems at concrete buffers.
use pensar.Base.{ℕ, ◌≡◌, refl, none, some, List, [], ◌∷◌, map, length}
use pensar.BinaryBuffer.{BinaryBuffer, write, read, new_buffer, OpenFile}
use pensar.BinaryBuffer.Streams.{write_all, read_all, read_all-write_all}

abbrev held : BinaryBuffer
held = record { buffer = 1 ∷ 2 ∷ 3 ∷ 4 ∷ []; write_pos = 3; read_pos = 1 }

abbrev truncated : OpenFile
truncated = record { tell = some 2; bytes = 9 ∷ []; fread = λ n. 1 }

grows :
    write (5 ∷ 6 ∷ []) held
    ≡ record { buffer = 1 ∷ 2 ∷ 3 ∷ 5 ∷ 6 ∷ []; write_pos = 5; read_pos = 1 }
unfolding write
grows = refl

read_all-write_all_example :
    let chunks : List (List ℕ) = (7 ∷ 8 ∷ []) ∷ (9 ∷ []) ∷ [] in
    let (b, got) = read_all (map length chunks) (write_all chunks (new_buffer 4096)) in
    (got ≡ map some chunks) × (read 1 b ≡ (b, none))
read_all-write_all_example = read_all-write_all 4096 ((7 ∷ 8 ∷ []) ∷ (9 ∷ []) ∷ []) 0
