-- ===== src/TextFile/Switching.antt =====
-- What `set_binary_mode` and `set_text_mode` leave of an open file.
use pensar.Base.{ℕ, ◌≡◌, ap, ◌∙◌, Bool, true, false, Option, none, some, List, if◌then◌else◌}
use pensar.OpenMode.{OpenMode, bin_rw, text_rw}
use pensar.TextFile.Appending.{closed_text, open_file-closed_text}
use pensar.TextFile.{
  Stream, Call, returns, throws, terminates, call_then, no_throw, File, is_open, open_file, close,
  position, reopen, set_binary_mode, set_text_mode,
}

-- A file that is open in a mode.
abbrev pub opened_file : OpenMode → OpenMode → List ℕ → ℕ → Bool → File
opened_file mode m bytes pos failed = record {
  mode = mode;
  stream = record { disk = some bytes; opened = some m; pos = pos; failed = failed };
}

module _ (allowed closes : OpenMode → Bool) (tell : Stream → Option ℕ) where
  position-opened_file :
      (f : File) (p : ℕ) → tell f.stream ≡ some p → position allowed closes tell f ≡ returns p
  unfolding position
  position-opened_file f p told =
      ap (λ o. elim o as (λ x. Call ℕ) [ none ↦ throws | some q ↦ returns q ]) told

  close-opened_file :
      (mode m : OpenMode) (bytes : List ℕ) (pos : ℕ) (failed : Bool)
      → closes mode ≡ true
      → close allowed closes tell (opened_file mode m bytes pos failed)
        ≡ returns (closed_text bytes pos mode failed)
  unfolding close is_open
  close-opened_file mode m bytes pos failed closable =
      ap (λ b. if b then returns (closed_text bytes pos mode failed) else terminates) closable

  reopen-opened_file :
      (to mode m : OpenMode) (bytes : List ℕ) (pos p : ℕ) (failed : Bool)
      → allowed bin_rw ≡ true
      → closes mode ≡ true
      → tell (opened_file mode m bytes pos failed).stream ≡ some p
      → reopen allowed closes tell to (opened_file mode m bytes pos failed)
        ≡ returns (opened_file bin_rw bin_rw bytes 0 false)
  unfolding reopen is_open
  reopen-opened_file to mode m bytes pos p failed free closable told =
      ap (λ c. call_then (call_then c (λ q. close allowed closes tell f)) next)
        (position-opened_file f p told)
      ∙ ap (λ c. call_then c next) (close-opened_file mode m bytes pos failed closable)
      ∙ ap returns (open_file-closed_text allowed closes tell bytes pos to failed free)
    where
      f : File
      f = opened_file mode m bytes pos failed

      next : File → Call File
      next g = returns (open_file allowed closes tell bin_rw (record g { mode = to }))

  -- An open file whose position can be told, that can be closed, and that the system lets be opened
  -- again, is after `set_text_mode` just what it is after `set_binary_mode`: open for reading and
  -- writing in binary mode, with the stream at the start and not where it was.
  pub set_text_mode-set_binary_mode :
      (mode m : OpenMode) (bytes : List ℕ) (pos p : ℕ) (failed : Bool)
      → allowed bin_rw ≡ true
      → closes mode ≡ true
      → tell (opened_file mode m bytes pos failed).stream ≡ some p
      → (set_text_mode allowed closes tell (opened_file mode m bytes pos failed)
          ≡ returns (opened_file bin_rw bin_rw bytes 0 false))
        × (set_binary_mode allowed closes tell (opened_file mode m bytes pos failed)
            ≡ returns (opened_file bin_rw bin_rw bytes 0 false))
  unfolding set_text_mode set_binary_mode
  set_text_mode-set_binary_mode mode m bytes pos p failed free closable told = (
    reopen-opened_file text_rw mode m bytes pos p failed free closable told,
    ap no_throw (reopen-opened_file bin_rw mode m bytes pos p failed free closable told),
  )
