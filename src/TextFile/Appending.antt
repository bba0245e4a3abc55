-- ===== src/TextFile/Appending.antt =====
-- What a text file holds after it was constructed and appended to.
use mathlib.Core.List.{flatten}
use native.Mathlib.Nat.{zero-add}
use pensar.Base.{
  length-replicate, ltb→lt, ℕ, ◌+◌, ◌-◌, ◌≡◌, refl, ap, sym, ◌∙◌, Bool, true, false, Option, none,
  some, List, [], ◌∷◌, ◌++◌, length, drop, replicate, append_assoc, append-nil, length-append,
  drop_all, ltb, if◌then◌else◌, arith, Bool-cases, inl, inr,
}
use pensar.Base.Search.{break_at}
use pensar.BinaryBuffer.{resize, overwrite}
use pensar.OpenMode.{OpenMode, bin_rw, text_rwa}
use pensar.TextFile.{
  Stream, write, is_open, stream_write, written, fail, bytes_of, open_file, new_file, stream_open,
  opened_disk, opened_as, fill_text_file, exists, readable, read_disk, Call, returns, throws,
  call_then, File, append, new_text_file, read, up_to_null,
}

-- A file open in the default text mode, with these bytes, and the stream at a position.
abbrev pub open_text : List ℕ → ℕ → File
open_text bytes pos = record {
  mode = text_rwa;
  stream = record { disk = some bytes; opened = some text_rwa; pos = pos; failed = false };
}

up_to_null-break_at : (s : List ℕ) → up_to_null s ≡ (break_at 0 s).0
unfolding up_to_null break_at
up_to_null-break_at [] = refl
up_to_null-break_at (c ∷ s) = ground (arith, up_to_null-break_at s)

-- A file that is closed, and one open in the default mode of `open`.
abbrev pub closed_text : List ℕ → ℕ → OpenMode → Bool → File
closed_text bytes pos mode failed = record {
  mode = mode;
  stream = record { disk = some bytes; opened = none; pos = pos; failed = failed };
}

abbrev open_binary : List ℕ → File
open_binary bytes = record {
  mode = bin_rw;
  stream = record { disk = some bytes; opened = some bin_rw; pos = 0; failed = false };
}

abbrev longer : List ℕ → List ℕ → List ℕ
longer content old =
    if ltb (length old) (0 + length content) then resize (0 + length content) old else old

drop-longer :
    (content old : List ℕ)
    → drop (0 + length content) (longer content old) ≡ drop (length content) old
unfolding resize
drop-longer content old = elim (Bool-cases (ltb (length old) (0 + length content))) [
  | inl more ↦ rw more (
      drop_all (0 + length content) (old ++ replicate ((0 + length content) - length old) 0) (
        omega (
          arith,
          length-append old (replicate ((0 + length content) - length old) 0),
          length-replicate {A = ℕ} ((0 + length content) - length old) 0,
          ltb→lt (length old) (0 + length content) more,
        ))
      ∙ sym (drop_all (length content) old (ground arith)))
  | inr fits ↦ rw fits (ap (λ n. drop n old) (zero-add (length content)))
]

module _ (allowed closes : OpenMode → Bool) (tell : Stream → Option ℕ) where
  -- One call of `append` after the other.
  pub append_all : List (List ℕ) → File → Call File
  append_all [] f = returns f
  append_all (c ∷ cs) f = call_then (append allowed closes tell c f) (append_all cs)

  append-open_text :
      (bytes content : List ℕ) (pos : ℕ)
      → append allowed closes tell content (open_text bytes pos)
        ≡ returns (open_text (bytes ++ content) (length (bytes ++ content)))
  unfolding append write is_open stream_write written fail bytes_of open_file
  append-open_text bytes content pos = refl

  append_all-open_text :
      (cs : List (List ℕ)) (bytes : List ℕ) (pos : ℕ)
      → (pos' : ℕ) × (append_all cs (open_text bytes pos)
          ≡ returns (open_text (bytes ++ flatten cs) pos'))
  unfolding append_all flatten
  append_all-open_text [] bytes pos =
      (pos, ap (λ t. returns (open_text t pos)) (sym (append-nil bytes)))
  append_all-open_text (c ∷ cs) bytes pos =
      let (pos', eq) = append_all-open_text cs (bytes ++ c) (length (bytes ++ c)) in
      (
        pos',
        ap (λ r. call_then r (append_all cs)) (append-open_text bytes c pos)
            ∙ eq
            ∙ ap (λ t. returns (open_text t pos')) (append_assoc bytes c (flatten cs)),
      )

  new_file-open_text :
      (disk : Option (List ℕ))
      → allowed text_rwa ≡ true
      → new_file allowed closes tell text_rwa disk ≡ returns (open_text (bytes_of disk) 0)
  unfolding new_file stream_open opened_disk opened_as
  new_file-open_text disk free =
      ap
        (λ b.
          let s : Stream =
            opened_as text_rwa (record { disk = disk; opened = none; pos = 0; failed = false })
              (if b then some (bytes_of disk) else none) in
          if s.failed then throws else returns (record { mode = text_rwa; stream = s }))
        free

  fill_text_file-open_text :
      (content bytes : List ℕ)
      → (pos : ℕ) × (fill_text_file allowed closes tell content text_rwa (open_text bytes 0)
          ≡ returns (open_text (bytes ++ content) pos))
  unfolding fill_text_file exists open_file is_open
  fill_text_file-open_text [] bytes =
      (0, ap (λ t. returns (open_text t 0)) (sym (append-nil bytes)))
  fill_text_file-open_text (c ∷ s) bytes =
      (length (bytes ++ (c ∷ s)), append-open_text bytes (c ∷ s) 0)

  new_text_file-open_text :
      (content : List ℕ) (disk : Option (List ℕ))
      → allowed text_rwa ≡ true
      → (pos : ℕ) × (new_text_file allowed closes tell text_rwa content disk
          ≡ returns (open_text (bytes_of disk ++ content) pos))
  unfolding new_text_file
  new_text_file-open_text content disk free =
      let (pos, eq) = fill_text_file-open_text content (bytes_of disk) in
      (
        pos,
        ap (λ r. call_then r (fill_text_file allowed closes tell content text_rwa))
              (new_file-open_text disk free)
            ∙ eq,
      )

  read-open_text :
      (bytes : List ℕ) (pos : ℕ)
      → read allowed closes tell (open_text bytes pos)
        ≡ returns ((break_at 0 bytes).0, open_text bytes (length bytes))
  unfolding read read_disk readable is_open
  read-open_text bytes pos = rw (up_to_null-break_at bytes) (ground arith)

  -- A text file constructed with the default mode, where the system lets it be opened, and then
  -- appended to any number of times, holds what was there before, the content of the constructor
  -- and the texts appended, in this order; and `read` gives just that, up to its first null
  -- character.
  pub read-append_all :
      (content : List ℕ) (disk : Option (List ℕ)) (texts : List (List ℕ))
      → allowed text_rwa ≡ true
      → (f g : File) × (call_then
            (new_text_file allowed closes tell text_rwa content disk)
            (append_all texts)
          ≡ returns f)
        × (f.stream.disk ≡ some ((bytes_of disk ++ content) ++ flatten texts))
        × (read allowed closes tell f
            ≡ returns ((break_at 0 ((bytes_of disk ++ content) ++ flatten texts)).0, g))
  read-append_all content disk texts free =
      let all = (bytes_of disk ++ content) ++ flatten texts in
      let (pos, made) = new_text_file-open_text content disk free in
      let (pos', more) = append_all-open_text texts (bytes_of disk ++ content) pos in
      (
        open_text all pos',
        open_text all (length all),
        ap (λ r. call_then r (append_all texts)) made ∙ more,
        refl,
        read-open_text all pos',
      )

  pub open_file-closed_text :
      (old : List ℕ) (pos : ℕ) (mode : OpenMode) (failed : Bool)
      → allowed bin_rw ≡ true
      → open_file allowed closes tell bin_rw (closed_text old pos mode failed) ≡ open_binary old
  unfolding open_file is_open stream_open opened_disk opened_as
  open_file-closed_text old pos mode failed free =
      ap
        (λ b. record {
          mode = bin_rw;
          stream =
              opened_as bin_rw
                (record { disk = some old; opened = none; pos = pos; failed = failed })
                (if b then some old else none);
        })
        free

  write-open_binary :
      (content old : List ℕ)
      → (g : File) × (write allowed closes tell content (open_binary old) ≡ returns g)
        × (g.stream.disk ≡ some (content ++ drop (length content) old))
  unfolding write is_open stream_write written fail bytes_of overwrite
  write-open_binary content old = (
    record {
      mode = bin_rw;
      stream = record {
        disk = some (overwrite 0 content (longer content old));
        opened = some bin_rw;
        pos = 0 + length content;
        failed = false;
      };
    },
    refl,
    ap (λ t. some (content ++ t)) (drop-longer content old),
  )

  -- `append` to a text file that is closed opens it with `DEFAULT_OPEN_MODE`, and not to append:
  -- where the system lets it be opened, the text replaces as many bytes at the start of the file.
  pub append-closed_text :
      (content old : List ℕ) (pos : ℕ) (mode : OpenMode) (failed : Bool)
      → allowed bin_rw ≡ true
      → (g : File) × (append allowed closes tell content (closed_text old pos mode failed)
          ≡ returns g)
        × (g.stream.disk ≡ some (content ++ drop (length content) old))
  unfolding append is_open
  append-closed_text content old pos mode failed free =
      let (g, eq, disk) = write-open_binary content old in
      (
        g,
        ap (write allowed closes tell content) (open_file-closed_text old pos mode failed free)
            ∙ eq,
        disk,
      )
