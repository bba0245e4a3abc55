-- ===== src/OpenMode.antt =====
-- cpp/src/file.hpp: `OpenMode`, the set of flags that a file is opened with, the checked `BinMode`
-- and `TextMode`, and their constants. A text is a list of character codes.
pub mod Names
mod Examples
use pensar.Base.{ℕ, Bool, true, false, not, ◌&&◌, List, [], ◌∷◌, ◌++◌, is_empty, if◌then◌else◌}
use pensar.Base.Outcome.{Outcome, done, throws, library_error}

-- The flags `in`, `out`, `binary`, `app`, `ate` and `trunc` of `std::ios::openmode`.
pub record OpenMode : Type 0 where
  pub input : Bool
  pub output : Bool
  pub binary : Bool
  pub app : Bool
  pub ate : Bool
  pub trunc : Bool

unfoldable pub is_bin_mode : OpenMode → Bool
is_bin_mode m = m.binary

unfoldable pub is_text_mode : OpenMode → Bool
unfolding is_bin_mode
is_text_mode m = not (is_bin_mode m)

-- A name of a set flag, behind ` | ` unless it is the first.
pub add_name : Bool → List ℕ → List ℕ → List ℕ
add_name flag name s =
    if flag then s ++ (if is_empty s then name else (b' ' ∷ b'|' ∷ b' ' ∷ []) ++ name) else s

pub to_string : OpenMode → List ℕ
unfolding add_name
to_string m =
    let s₁ = add_name m.input (b'i' ∷ b'n' ∷ []) [] in
    let s₂ = add_name m.output (b'o' ∷ b'u' ∷ b't' ∷ []) s₁ in
    let s₃ = add_name m.binary (b'b' ∷ b'i' ∷ b'n' ∷ b'a' ∷ b'r' ∷ b'y' ∷ []) s₂ in
    let s₄ = add_name m.app (b'a' ∷ b'p' ∷ b'p' ∷ []) s₃ in
    let s₅ = add_name m.ate (b'a' ∷ b't' ∷ b'e' ∷ []) s₄ in
    add_name m.trunc (b't' ∷ b'r' ∷ b'u' ∷ b'n' ∷ b'c' ∷ []) s₅

same_flag : Bool → Bool → Bool
same_flag a b = if a then b else not b

pub mode_eq : OpenMode → OpenMode → Bool
unfolding same_flag
mode_eq a b =
    ((same_flag a.input b.input && same_flag a.output b.output)
      && (same_flag a.binary b.binary && same_flag a.app b.app))
    && (same_flag a.ate b.ate && same_flag a.trunc b.trunc)

-- The constructors of `BinMode` and `TextMode`.
unfoldable pub bin_mode : OpenMode → Outcome OpenMode
unfolding is_bin_mode
bin_mode m = if is_bin_mode m then done m else throws library_error

unfoldable pub text_mode : OpenMode → Outcome OpenMode
unfolding is_text_mode
text_mode m = if is_text_mode m then done m else throws library_error

abbrev pub no_flags : OpenMode
no_flags = record {
  input = false;
  output = false;
  binary = false;
  app = false;
  ate = false;
  trunc = false;
}

abbrev pub bin_read : OpenMode
bin_read = record no_flags { binary = true; input = true }

abbrev pub bin_write : OpenMode
bin_write = record no_flags { binary = true; output = true }

abbrev pub bin_append : OpenMode
bin_append = record no_flags { binary = true; app = true }

abbrev pub bin_ate : OpenMode
bin_ate = record no_flags { binary = true; ate = true }

abbrev pub bin_rw : OpenMode
bin_rw = record no_flags { binary = true; input = true; output = true }

abbrev pub bin_rw_ate : OpenMode
bin_rw_ate = record no_flags { binary = true; input = true; output = true; ate = true }

abbrev pub text_read : OpenMode
text_read = record no_flags { input = true }

abbrev pub text_write : OpenMode
text_write = record no_flags { output = true }

abbrev pub text_append : OpenMode
text_append = record no_flags { app = true }

abbrev pub text_ate : OpenMode
text_ate = record no_flags { ate = true }

abbrev pub text_rw : OpenMode
text_rw = record no_flags { input = true; output = true }

abbrev pub text_rwa : OpenMode
text_rwa = record no_flags { input = true; output = true; app = true }

abbrev pub text_rw_ate : OpenMode
text_rw_ate = record no_flags { input = true; output = true; ate = true }

abbrev pub default_bin_mode : OpenMode
default_bin_mode = bin_rw

abbrev pub default_text_mode : OpenMode
default_text_mode = text_rwa

abbrev pub default_open_mode : OpenMode
default_open_mode = default_bin_mode
