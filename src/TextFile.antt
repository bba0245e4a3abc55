-- ===== src/TextFile.antt =====
-- cpp/src/file.hpp: `File` and `TextFile`, over a `std::fstream` and the one file it names. The
-- stream is modelled as the C++ standard describes it: the flags that `open` takes and what they do
-- to a file that exists or not, and where a write goes. Whether the system lets the file be opened,
-- whether it can be closed, and what `ftell` reports are arguments. A failure of a call that is
-- `noexcept` ends the program.
pub mod Appending
pub mod Switching
mod Examples
use pensar.Base.{
  ℕ, zero, suc, ◌+◌, Bool, true, false, not, ◌&&◌, ◌||◌, Option, none, some, List, [], ◌∷◌, ◌++◌,
  length, take, drop, is_empty, ltb, ◌==◌, if◌then◌else◌,
}
use pensar.BinaryBuffer.{resize, overwrite}
use pensar.OpenMode.{
  OpenMode, is_text_mode, bin_rw, text_rw, text_read, default_open_mode, default_text_mode,
}

-- The stream: the bytes of the file, if it exists; the mode it was opened with, if it is open; its
-- position; and its fail bit.
pub record Stream : Type 0 where
  pub disk : Option (List ℕ)
  pub opened : Option OpenMode
  pub pos : ℕ
  pub failed : Bool

-- What a call gives: a value, an exception, or the end of the program.
pub data Call {ℓ} (A : Type ℓ) : Type ℓ where
  returns : A → Call A
  throws terminates : Call A

abbrev pub call_then {ℓ κ} : {A : Type ℓ} {B : Type κ} → Call A → (A → Call B) → Call B
call_then (returns a) f = f a
call_then throws f = throws
call_then terminates f = terminates

-- An exception that leaves a `noexcept` function ends the program.
abbrev pub no_throw {ℓ} : {A : Type ℓ} → Call A → Call A
no_throw (returns a) = returns a
no_throw throws = terminates
no_throw terminates = terminates

pub bytes_of : Option (List ℕ) → List ℕ
bytes_of none = []
bytes_of (some bytes) = bytes

-- What `open` does to the file: `none` if these flags cannot be opened, or the file is not there
-- and has to be. Without `trunc`, `out` alone empties the file; `app` keeps it, and may make it.
pub opened_disk : OpenMode → Option (List ℕ) → Option (List ℕ)
unfolding bytes_of
opened_disk m disk =
    if m.trunc
    then if m.output && not m.app then some [] else none
    else if m.app
    then some (bytes_of disk)
    else if m.input
    then disk
    else if m.output
    then some []
    else none

abbrev pub start_pos : OpenMode → List ℕ → ℕ
start_pos m bytes = if m.ate then length bytes else 0

opened_as : OpenMode → Stream → Option (List ℕ) → Stream
opened_as m s none = record s { failed = true }
opened_as m s (some bytes) = record s {
  disk = some bytes;
  opened = some m;
  pos = start_pos m bytes;
  failed = false;
}

abbrev pub stream_is_open : Stream → Bool
stream_is_open s = elim s.opened [ none ↦ false | some m ↦ true ]

-- Where the flags of an open stream let a write go.
pub written : List ℕ → Stream → Option OpenMode → Stream
unfolding resize overwrite bytes_of
written content s none = record s { failed = true }
written content s (some m) =
    let bytes = bytes_of s.disk in
    let grown = resize (s.pos + length content) bytes in
    let longer = if ltb (length bytes) (s.pos + length content) then grown else bytes in
    if m.app
    then record s { disk = some (bytes ++ content); pos = length (bytes ++ content) }
    else if m.output
    then record s { disk = some (overwrite s.pos content longer); pos = s.pos + length content }
    else record s { failed = true }

-- `std::fstream::write`, which does nothing on a stream that has failed.
pub stream_write : List ℕ → Stream → Stream
unfolding written
stream_write content s = if s.failed then s else written content s s.opened

-- `File`: the last mode, and the stream of its path.
pub record File : Type 0 where
  pub mode : OpenMode
  pub stream : Stream

pub is_open : File → Bool
is_open f = stream_is_open f.stream

pub fail : File → Bool
fail f = f.stream.failed

pub exists : File → Bool
exists f = elim f.stream.disk [ none ↦ false | some bytes ↦ true ]

-- The text up to its first null character: a `std::string` made of a pointer.
pub up_to_null : List ℕ → List ℕ
up_to_null [] = []
up_to_null (c ∷ s) = let rest = up_to_null s in if c == 0 then [] else c ∷ rest

readable : Option OpenMode → Bool
readable none = false
readable (some m) = m.input

-- `File::size` is `noexcept`, and `file_size` throws if there is no file. The bytes are read from
-- the start; a stream that has failed, is not open, or may not read gives none of them.
pub read_disk : File → Option (List ℕ) → Call (List ℕ × File)
unfolding up_to_null readable
read_disk g none = terminates
read_disk g (some bytes) =
    let got = if not g.stream.failed && readable g.stream.opened then length bytes else 0 in
    if got == length bytes
    then returns (up_to_null bytes, record g { stream = record g.stream { pos = length bytes } })
    else throws

module _ (allowed closes : OpenMode → Bool) (tell : Stream → Option ℕ) where
  -- `std::fstream::open` of a stream that is not open.
  pub stream_open : OpenMode → Stream → Stream
  unfolding opened_disk opened_as
  stream_open m s = opened_as m s (if allowed m then opened_disk m s.disk else none)

  -- `File::open`
  pub open_file : OpenMode → File → File
  unfolding stream_open is_open
  open_file m f = record f {
    mode = m;
    stream = (if is_open f then f.stream else stream_open m f.stream);
  }

  -- The constructor: `file_open`, which throws if the stream failed. It gets a stream that is not
  -- open; the directory is there.
  pub new_file : OpenMode → Option (List ℕ) → Call File
  unfolding stream_open
  new_file m disk =
      let s = stream_open m (record { disk = disk; opened = none; pos = 0; failed = false }) in
      if s.failed then throws else returns (record { mode = m; stream = s })

  pub close : File → Call File
  unfolding is_open
  close f =
      if is_open f
      then if closes f.mode
        then returns (record f { stream = record f.stream { opened = none } })
        else terminates
      else returns f

  pub position : File → Call ℕ
  position f = elim (tell f.stream) [ none ↦ throws | some p ↦ returns p ]

  -- `set_binary_mode` and `set_text_mode`: the position is stored in a variable of the inner block,
  -- the outer one stays 0, and `open ()` has `DEFAULT_OPEN_MODE`.
  pub reopen : OpenMode → File → Call File
  unfolding is_open position close open_file
  reopen m f =
      let closed : Call File =
        if is_open f then call_then (position f) (λ p. close f) else returns f in
      call_then closed (λ g. returns (open_file default_open_mode (record g { mode = m })))

  pub set_binary_mode : File → Call File
  unfolding reopen
  set_binary_mode f = no_throw (reopen bin_rw f)

  pub set_text_mode : File → Call File
  unfolding reopen
  set_text_mode f = reopen text_rw f

  -- `TextFile::write`; a flush of a stream that has not failed does not fail.
  pub write : List ℕ → File → Call File
  unfolding is_open open_file stream_write fail
  write content f =
      let g = if is_open f then f else open_file default_open_mode f in
      let h = record g { stream = stream_write content g.stream } in
      if fail h then throws else returns h

  pub append : List ℕ → File → Call File
  unfolding is_open open_file write
  append content f =
      let g = if is_open f then f else open_file default_open_mode f in write content g

  -- The constructor of `TextFile`: behind that of `File`, which has opened the file.
  pub fill_text_file : List ℕ → OpenMode → File → Call File
  unfolding exists append open_file write close
  fill_text_file content m f =
      if exists f
      then if is_empty content then returns (open_file m f) else append content f
      else call_then (write content (open_file m f)) close

  pub new_text_file : OpenMode → List ℕ → Option (List ℕ) → Call File
  unfolding new_file fill_text_file
  new_text_file m content disk = call_then (new_file m disk) (fill_text_file content m)

  -- `TextFile::read`
  pub read : File → Call (List ℕ × File)
  unfolding is_open open_file read_disk
  read f = let g = if is_open f then f else open_file text_read f in read_disk g g.stream.disk
