-- ===== src/BinaryBuffer/Laws.antt =====
-- What `write`, `read` and `clear` do to the bytes and the positions.
use pensar.Base.{
  ℕ, ◌+◌, ◌-◌, ◌≤◌, ◌≡◌, refl, ap, List, ◌++◌, arith, ltb, if◌then◌else◌, length, take, drop,
  replicate, length-append, length-replicate, length-take, take-append, append_assoc, Bool-cases,
  inl, inr, take-take, take_prefix, ◌∙◌, sym,
}
use pensar.BinaryBuffer.{BinaryBuffer, resize, overwrite, data_of, size, write}

-- The written part lies inside the vector.
abbrev pub IsValid : BinaryBuffer → Type 0
IsValid b = b.write_pos ≤ length b.buffer

take-resize : (n m : ℕ) (xs : List ℕ) → n ≤ length xs → n ≤ m → take n (resize m xs) ≡ take n xs
unfolding resize
take-resize n m xs h k = elim (Bool-cases (ltb (length xs) m)) [
  | inl grow ↦ rw grow (take_prefix n xs (replicate (m - length xs) 0) h)
  | inr cut ↦ rw cut (take-take n m xs k)
]

pub length-resize : (n : ℕ) (xs : List ℕ) → length (resize n xs) ≡ n
unfolding resize
length-resize n xs = ground (
  arith,
  length-append xs (replicate (n - length xs) 0),
  length-replicate {A = ℕ} (n - length xs) 0,
  length-take n xs,
)

-- The bytes before the position stay, and the source follows them.
overwrite-split :
    (at : ℕ) (src bytes : List ℕ)
    → overwrite at src bytes ≡ (take at bytes ++ src) ++ drop (at + length src) bytes
unfolding overwrite
overwrite-split at src bytes = sym (append_assoc (take at bytes) src _)

-- The vector that `write` copies into.
pub grown : List ℕ → BinaryBuffer → List ℕ
grown src b =
    if ltb (length b.buffer) (b.write_pos + length src)
    then resize (b.write_pos + length src) b.buffer
    else b.buffer

pub length-grown :
    (src : List ℕ) (b : BinaryBuffer)
    → length b.buffer ≤ b.write_pos
    → length (grown src b) ≤ b.write_pos + length src
unfolding grown
length-grown src b h = ground (arith, length-resize (b.write_pos + length src) b.buffer)

pub grown_fits :
    (src : List ℕ) (b : BinaryBuffer)
    → b.write_pos + length src ≤ length b.buffer
    → grown src b ≡ b.buffer
unfolding grown
grown_fits src b h = ground arith

module _ (src : List ℕ) (b : BinaryBuffer) (valid : IsValid b) where
  take-grown : take b.write_pos (grown src b) ≡ data_of b
  unfolding grown data_of
  take-grown = elim (Bool-cases (ltb (length b.buffer) (b.write_pos + length src))) [
    | inl more ↦ rw more (take-resize b.write_pos _ b.buffer valid (omega arith))
    | inr fits ↦ rw fits
  ]

  pub length_data : length (data_of b) ≡ b.write_pos
  unfolding data_of
  length_data = omega (arith, length-take b.write_pos b.buffer)

  pub buffer-write :
      (write src b).buffer ≡ (data_of b ++ src) ++ drop (b.write_pos + length src) (grown src b)
  unfolding write grown
  buffer-write =
      overwrite-split b.write_pos src (grown src b)
      ∙ ap (λ t. (t ++ src) ++ drop (b.write_pos + length src) (grown src b)) take-grown

  length_written : length (data_of b ++ src) ≡ b.write_pos + length src
  length_written = omega (arith, length-append (data_of b) src, length_data)

  -- A write appends its bytes to what was written, and leaves the read position.
  pub data_of-write :
      (data_of (write src b) ≡ data_of b ++ src)
      × (size (write src b) ≡ size b + length src)
      × ((write src b).read_pos ≡ b.read_pos)
      × IsValid (write src b)
  unfolding data_of write size
  data_of-write = (
    ap (take (b.write_pos + length src)) buffer-write
        ∙ take-append (b.write_pos + length src) (data_of b ++ src) _ length_written,
    refl,
    refl,
    omega (
      arith,
      ap length buffer-write,
      length_written,
      length-append (data_of b ++ src) (drop (b.write_pos + length src) (grown src b)),
    ),
  )
