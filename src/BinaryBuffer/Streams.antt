-- ===== src/BinaryBuffer/Streams.antt =====
-- Chunks written one after the other and read back.
use mathlib.Core.List.{flatten}
use pensar.Base.{
  suc, ℕ, ◌+◌, ◌-◌, ◌≤◌, ◌<◌, ◌≡◌, refl, ap, Option, none, some, List, [], ◌∷◌, ◌++◌, map, arith,
  length, take, drop, length-append, length-drop, take-append, drop-append, append_assoc,
  append-nil, take_all, drop_all, take-append_past, drop-drop, ◌∙◌, sym,
}
use pensar.BinaryBuffer.{BinaryBuffer, data_of, size, clear, write, read, new_buffer}
use pensar.BinaryBuffer.Laws.{buffer-write, length-grown, grown_fits, grown}

pub write_all : List (List ℕ) → BinaryBuffer → BinaryBuffer
write_all [] b = b
write_all (c ∷ cs) b = write_all cs (write c b)

-- What each of a row of reads gives.
pub read_all : List ℕ → BinaryBuffer → BinaryBuffer × List (Option (List ℕ))
read_all [] b = (b, [])
read_all (n ∷ ns) b =
    let (b', got) = read n b in let (b'', rest) = read_all ns b' in (b'', got ∷ rest)

-- Every byte of the vector was written.
abbrev pub IsExact : BinaryBuffer → Type 0
IsExact b = length b.buffer ≡ b.write_pos

pub write-IsExact :
    (src : List ℕ) (b : BinaryBuffer)
    → IsExact b
    → ((write src b).buffer ≡ b.buffer ++ src)
      × ((write src b).read_pos ≡ b.read_pos)
      × IsExact (write src b)
unfolding data_of write
write-IsExact src b exact = (eq, refl, omega (arith, ap length eq, length-append b.buffer src))
  where
    eq : (write src b).buffer ≡ b.buffer ++ src
    eq =
        buffer-write src b (omega arith)
        ∙ ap (λ t. (data_of b ++ src) ++ t)
            (drop_all (b.write_pos + length src) (grown src b) (length-grown src b (omega arith)))
        ∙ append-nil (data_of b ++ src)
        ∙ ap (λ t. t ++ src) (take_all b.write_pos b.buffer (omega arith))

write_all-IsExact :
    (cs : List (List ℕ)) (b : BinaryBuffer)
    → IsExact b
    → ((write_all cs b).buffer ≡ b.buffer ++ flatten cs)
      × ((write_all cs b).read_pos ≡ b.read_pos)
      × IsExact (write_all cs b)
unfolding write_all flatten
write_all-IsExact [] b exact = (sym (append-nil b.buffer), refl, exact)
write_all-IsExact (c ∷ cs) b exact =
    let first = write-IsExact c b exact in
    let rest = write_all-IsExact cs (write c b) first.2 in
    (
      rest.0 ∙ ap (λ t. t ++ flatten cs) first.0 ∙ append_assoc b.buffer c (flatten cs),
      rest.1 ∙ first.1,
      rest.2,
    )

-- A read of what is there advances by its length.
pub read-some :
    (c rest : List ℕ) (b : BinaryBuffer)
    → b.read_pos ≤ length b.buffer
    → drop b.read_pos b.buffer ≡ c ++ rest
    → read (length c) b ≡ (record b { read_pos = b.read_pos + length c }, some c)
unfolding read
read-some c rest b h e = ground (
  arith,
  take-append (length c) c rest refl,
  ap length e,
  length-drop b.read_pos b.buffer,
  length-append c rest,
)

read_all-some :
    (cs : List (List ℕ)) (b : BinaryBuffer)
    → b.read_pos ≤ length b.buffer
    → drop b.read_pos b.buffer ≡ flatten cs
    → read_all (map length cs) b ≡ (record b { read_pos = length b.buffer }, map some cs)
unfolding read_all flatten
read_all-some [] b h e =
    ap (λ p. (record b { read_pos = p }, []))
      (omega (arith, ap length e, length-drop b.read_pos b.buffer))
read_all-some (c ∷ cs) b h e = rw (read-some c (flatten cs) b h e) (
    rw (
      read_all-some cs (record b { read_pos = b.read_pos + length c }) (omega (arith, lengths))
        advanced))
  where
    lengths : length b.buffer - b.read_pos ≡ length c + length (flatten cs)
    lengths = sym (length-drop b.read_pos b.buffer) ∙ ap length e ∙ length-append c (flatten cs)

    advanced : drop (b.read_pos + length c) b.buffer ≡ flatten cs
    advanced =
        sym (drop-drop b.read_pos (length c) b.buffer)
        ∙ ap (drop (length c)) e
        ∙ drop-append (length c) c (flatten cs) refl

-- Chunks written into a new buffer are read back in the same order and with the same bytes, by
-- reads of their lengths; after that a read of one byte or more fails, and changes nothing.
pub read_all-write_all :
    (reserve : ℕ) (cs : List (List ℕ)) (n : ℕ)
    → let (b, got) = read_all (map length cs) (write_all cs (new_buffer reserve)) in
      (got ≡ map some cs) × (read (suc n) b ≡ (b, none))
unfolding read new_buffer
read_all-write_all reserve cs n =
    rw (read_all-some cs start (omega (arith, w.1)) (rw (w.1, w.0))) (refl, ground arith)
  where
    start : BinaryBuffer
    start = write_all cs (new_buffer reserve)

    w :
        (start.buffer ≡ [] ++ flatten cs)
        × (start.read_pos ≡ 0)
        × (length start.buffer ≡ start.write_pos)
    w = write_all-IsExact cs (new_buffer reserve) refl

-- After `clear`, reads are still bounded by the old vector and not by what was written since:
-- in a buffer that held at least as many bytes before, a read past the written bytes succeeds,
-- and gives old bytes behind the new ones.
pub read-write-clear :
    (b : BinaryBuffer) (src : List ℕ) (n : ℕ)
    → n ≤ length b.buffer
    → size (write src (clear b)) < n
    → (read n (write src (clear b))).1
      ≡ some (src ++ take (n - length src) (drop (length src) b.buffer))
unfolding read clear size write data_of
read-write-clear b src n h past = ground (
  arith,
  overwritten,
  take-append_past n src (drop (length src) b.buffer),
  length-append src (drop (length src) b.buffer),
  length-drop (length src) b.buffer,
)
  where
    overwritten : (write src (clear b)).buffer ≡ src ++ drop (length src) b.buffer
    overwritten =
        buffer-write src (clear b) (omega arith)
        ∙ ap (λ t. src ++ drop (0 + length src) t) (grown_fits src (clear b) (omega arith))
        ∙ ap (λ k. src ++ drop k b.buffer) (omega arith)
