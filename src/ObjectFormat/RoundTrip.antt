-- ===== src/ObjectFormat/RoundTrip.antt =====
-- An object read back from the bytes that were written.
use pensar.Base.{
  ℕ, zero, ◌+◌, ◌≤◌, ◌≡◌, refl, ap, sym, ◌∙◌, true, false, List, [], ◌∷◌, ◌++◌, length, drop,
  append_assoc, append-nil, arith,
}
use pensar.BinaryBuffer.{BinaryBuffer, write, new_buffer}
use pensar.BinaryBuffer.Streams.{IsExact, read-some, write-IsExact}
use pensar.BinaryBuffer.Cursor.{At, read-At}
use pensar.ObjectFormat.{
  Part, same_bytes, write_part, write_object, read_into, read_part, read_object,
}

abbrev pub bytes : List Part → List ℕ
bytes [] = []
bytes (p ∷ ps) = p.info ++ (p.data_bytes ++ bytes ps)

-- The same classes, with data of the same sizes.
abbrev pub SameShape : List Part → List Part → Type 0
SameShape [] [] = Unit
SameShape [] (q ∷ qs) = zero ≡ 1
SameShape (p ∷ ps) [] = zero ≡ 1
SameShape (p ∷ ps) (q ∷ qs) =
    (p.info ≡ q.info) × (length p.data_bytes ≡ length q.data_bytes) × SameShape ps qs

pub same_bytes_self : (xs : List ℕ) → same_bytes xs xs ≡ true
unfolding same_bytes
same_bytes_self [] = refl
same_bytes_self (x ∷ xs) = ground (arith, same_bytes_self xs)

pub write_object-bytes :
    (ps : List Part) (b : BinaryBuffer)
    → IsExact b
    → ((write_object ps b).buffer ≡ b.buffer ++ bytes ps)
      × ((write_object ps b).read_pos ≡ b.read_pos)
      × IsExact (write_object ps b)
unfolding write_object write_part
write_object-bytes [] b exact = (sym (append-nil b.buffer), refl, exact)
write_object-bytes (p ∷ ps) b exact =
    let (held, pos, exact') = write-IsExact p.info b exact in
    let (held', pos', exact'') = write-IsExact p.data_bytes (write p.info b) exact' in
    let (all, last, exact₃) = write_object-bytes ps (write p.data_bytes (write p.info b)) exact'' in
    (
      all
          ∙ ap (λ t. t ++ bytes ps) (held' ∙ ap (λ t. t ++ p.data_bytes) held)
          ∙ append_assoc (b.buffer ++ p.info) p.data_bytes (bytes ps)
          ∙ append_assoc b.buffer p.info (p.data_bytes ++ bytes ps),
      last ∙ pos' ∙ pos,
      exact₃,
    )

module _ (blank : List ℕ) where
  pub read_part-At :
      (p q : Part) (rest : List ℕ) (b : BinaryBuffer)
      → p.info ≡ q.info
      → length p.data_bytes ≡ length q.data_bytes
      → At b (p.info ++ (p.data_bytes ++ rest))
      → (b' : BinaryBuffer) × (read_part blank q b ≡ (p, b')) × At b' rest
  unfolding read_part read_into
  read_part-At p q rest b same size at =
      let (b₁, first, at₁) =
        read-At (length q.info) p.info (p.data_bytes ++ rest) b (ap length same) at in
      let (b₂, second, at₂) = read-At (length q.data_bytes) p.data_bytes rest b₁ size at₁ in
      (b₂, rw (read_part, first, second, sym same, same_bytes_self p.info) refl, at₂)

  pub read_object-At :
      (ps qs : List Part) (rest : List ℕ) (b : BinaryBuffer)
      → SameShape ps qs
      → At b (bytes ps ++ rest)
      → (b' : BinaryBuffer) × (read_object blank qs b ≡ (ps, b')) × At b' rest
  unfolding read_object
  read_object-At [] [] rest b shape at = (b, refl, at)
  read_object-At [] (q ∷ qs) rest b shape at = absurd (omega (arith, shape))
  read_object-At (p ∷ ps) [] rest b shape at = absurd (omega (arith, shape))
  read_object-At (p ∷ ps) (q ∷ qs) rest b (same, size, shape) (inside, e) =
      let apart : (bytes (p ∷ ps) ++ rest) ≡ p.info ++ (p.data_bytes ++ (bytes ps ++ rest)) =
        append_assoc p.info (p.data_bytes ++ bytes ps) rest
        ∙ ap (λ t. p.info ++ t) (append_assoc p.data_bytes (bytes ps) rest) in
      let (b₁, first, at₁) = read_part-At p q (bytes ps ++ rest) b same size (inside, e ∙ apart) in
      let (b₂, others, at₂) = read_object-At ps qs rest b₁ shape at₁ in
      (b₂, rw (read_object, first, others) refl, at₂)

  -- What is written of an object into a new buffer, read into an object of the same classes and
  -- sizes, makes that object the same, whatever it held before.
  pub read_object-write_object :
      (ps qs : List Part) (reserve : ℕ)
      → SameShape ps qs
      → (read_object blank qs (write_object ps (new_buffer reserve))).0 ≡ ps
  read_object-write_object ps qs reserve shape =
      let fresh : (length (new_buffer reserve).buffer ≡ (new_buffer reserve).write_pos)
          × ((new_buffer reserve).buffer ≡ [])
          × ((new_buffer reserve).read_pos ≡ 0) =
        unfold new_buffer in (refl, refl, refl) in
      let (held, pos, _) = write_object-bytes ps (new_buffer reserve) fresh.0 in
      let start : (write_object ps (new_buffer reserve)).read_pos ≡ 0 = pos ∙ fresh.2 in
      let (_, eq, _) = read_object-At ps qs [] (write_object ps (new_buffer reserve)) shape (
        omega (arith, start),
        ap (λ r. drop r (write_object ps (new_buffer reserve)).buffer) start
            ∙ held
            ∙ ap (λ t. t ++ bytes ps) fresh.1
            ∙ sym (append-nil (bytes ps)),
      ) in
      ap (λ r. r.0) eq

  -- An object part of another class is not changed by a read, and the data that follows is not
  -- skipped: the read position stays behind the class information.
  pub read_part-mismatch :
      (p q : Part) (rest : List ℕ) (b : BinaryBuffer)
      → length p.info ≡ length q.info
      → same_bytes p.info q.info ≡ false
      → b.read_pos ≤ length b.buffer
      → drop b.read_pos b.buffer ≡ p.info ++ rest
      → read_part blank q b ≡ (q, record b { read_pos = b.read_pos + length p.info })
  unfolding read_part read_into
  read_part-mismatch p q rest b same_size differs h e =
      rw (read_part, sym same_size, read-some p.info rest b h e, differs) refl
