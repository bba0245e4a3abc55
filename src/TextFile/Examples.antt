-- ===== src/TextFile/Examples.antt =====
-- Text files, and the theorems at concrete files.
use pensar.Base.{ℕ, ◌≡◌, refl, Bool, true, false, Option, some, [], ◌∷◌}
use mathlib.Core.List.{flatten}
use pensar.OpenMode.{OpenMode, text_rwa}
use pensar.TextFile.{
  Stream, returns, throws, call_then, File, new_text_file, new_file, read, bytes_of,
}
use pensar.Base.Search.{break_at}
use pensar.TextFile.Appending.{read-append_all, append_all}

abbrev all_allowed : OpenMode → Bool
all_allowed m = true

abbrev at_pos : Stream → Option ℕ
at_pos s = some s.pos

-- `ate` without `in` or `out` opens nothing.
ate_alone :
    new_file all_allowed all_allowed at_pos
      (record text_rwa { input = false; output = false; app = false; ate = true })
      (some (b'a' ∷ []))
    ≡ throws
unfolding new_file
ate_alone = refl

read-append_all_example :
    (f g : File) × (call_then
        (new_text_file all_allowed all_allowed at_pos text_rwa (b'b' ∷ []) (some (b'a' ∷ [])))
        (append_all all_allowed all_allowed at_pos ((b'c' ∷ []) ∷ (b'd' ∷ []) ∷ []))
      ≡ returns f)
    × (f.stream.disk ≡ some (b'a' ∷ b'b' ∷ b'c' ∷ b'd' ∷ []))
    × (read all_allowed all_allowed at_pos f ≡ returns (b'a' ∷ b'b' ∷ b'c' ∷ b'd' ∷ [], g))
unfolding bytes_of flatten break_at
read-append_all_example =
    read-append_all all_allowed all_allowed at_pos (b'b' ∷ []) (some (b'a' ∷ []))
      ((b'c' ∷ []) ∷ (b'd' ∷ []) ∷ []) refl
