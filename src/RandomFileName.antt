-- ===== src/RandomFileName.antt =====
-- cpp/src/file.hpp: `RandomFileNameGenerator`. The numbers that a `Random` draws are an argument, by
-- their order; a string that is drawn has numbers of its own. A text is a list of character codes.
pub mod Strings
mod Examples
use pensar.Base.{
  codes, ℕ, zero, suc, ◌+◌, ◌-◌, ◌%◌, ◌^◌, Bool, List, [], ◌∷◌, ◌++◌, leb, ◌&&◌, if◌then◌else◌,
  get_or,
}
use pensar.Base.Outcome.{Outcome, done, throws, runtime_error, ◌>>=◌}

unfoldable pub chars : List ℕ
unfolding codes
chars = codes "0123456789ABCDEFGHIJKLMNOPQRSTUVWXYZabcdefghijklmnopqrstuvwxyz"

-- `CHARS[r ()]`
unfoldable pub char_at : ℕ → ℕ
unfolding chars
char_at draw = get_or chars draw 0

unfoldable pub is_number : ℕ → Bool
is_number c = leb b'0' c && leb c b'9'

-- The loop that draws the first character again, with one less than `count`, the draws made and
-- `c`. It ends with `c` and the draws made, or throws by `runtime_error` when `count` gets 0.
unfoldable pub redraw : (ℕ → ℕ) → ℕ → ℕ → ℕ → Outcome (ℕ × ℕ)
unfolding is_number
redraw draws zero made c = if is_number c then throws runtime_error else done (c, made)
redraw draws (suc count) made c =
    let again = redraw draws count (suc made) (char_at (draws made)) in
    if is_number c then again else done (c, made)

-- `while (i--) s += CHARS[r ()]`
unfoldable pub draw_chars : (ℕ → ℕ) → ℕ → ℕ → List ℕ
draw_chars draws zero made = []
draw_chars draws (suc i) made = char_at (draws made) ∷ draw_chars draws i (suc made)

-- A length of 0 wraps around at `--i`.
unfoldable pub random_string : (ℕ → ℕ) → ℕ → Outcome (List ℕ)
unfolding redraw draw_chars
random_string draws len = redraw draws 999 1 (char_at (draws 0)) >>= λ got.
    done (got.0 ∷ draw_chars draws ((len + 2 ^ 64 - 1) % 2 ^ 64) got.1)

pub data ExtensionType : Type 0 where
  fixed random none numeric_sequence char_sequence function : ExtensionType

-- The generator: its extension type, its extension, and what its function returns.
pub record Generator : Type 0 where
  pub mextension_type : ExtensionType
  pub mextension : List ℕ
  pub mcustom_ext_function : List ℕ

unfoldable pub extension_of : ExtensionType → Generator → (ℕ → ℕ) → Outcome (List ℕ)
unfolding random_string
extension_of fixed g draws = done g.mextension
extension_of random g draws = random_string draws 8
extension_of none g draws = done []
extension_of numeric_sequence g draws = done []
extension_of char_sequence g draws = done []
extension_of function g draws = done g.mcustom_ext_function

unfoldable pub get_extension : Generator → (ℕ → ℕ) → Outcome (List ℕ)
unfolding extension_of
get_extension g draws = extension_of g.mextension_type g draws

-- The last part of the path. The argument `extension` is not used.
unfoldable pub file_name :
    Generator → List ℕ → List ℕ → List ℕ → (ℕ → ℕ) → (ℕ → ℕ) → Outcome (List ℕ)
unfolding random_string get_extension
file_name g name_prefix name_suffix extension draws ext_draws = random_string draws 8 >>= λ s.
    get_extension g ext_draws >>= λ e. done (name_prefix ++ (s ++ (name_suffix ++ (46 ∷ e))))
