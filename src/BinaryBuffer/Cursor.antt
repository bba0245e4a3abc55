-- ===== src/BinaryBuffer/Cursor.antt =====
-- What is left to read of a buffer.
use pensar.Base.{
  ℕ, ◌+◌, ◌≤◌, ◌≡◌, refl, ap, sym, ◌∙◌, some, List, ◌++◌, length, drop, drop-drop, drop-append,
  length-append, length-drop, arith,
}
use pensar.BinaryBuffer.{BinaryBuffer, read}
use pensar.BinaryBuffer.Streams.{read-some}

-- The bytes behind the read position are these.
abbrev pub At : BinaryBuffer → List ℕ → Type 0
At b rest = (b.read_pos ≤ length b.buffer) × (drop b.read_pos b.buffer ≡ rest)

-- A read of the first of them leaves the others.
pub read-At :
    (n : ℕ) (c rest : List ℕ) (b : BinaryBuffer)
    → length c ≡ n
    → At b (c ++ rest)
    → (b' : BinaryBuffer) × (read n b ≡ (b', some c)) × At b' rest
read-At n c rest b size (inside, e) = (
  record b { read_pos = b.read_pos + length c },
  ap (λ m. read m b) (sym size) ∙ read-some c rest b inside e,
  (
    omega (arith, sym (length-drop b.read_pos b.buffer) ∙ ap length e ∙ length-append c rest),
    sym (drop-drop b.read_pos (length c) b.buffer)
        ∙ ap (drop (length c)) e
        ∙ drop-append (length c) c rest refl,
  ),
)
