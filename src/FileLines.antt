-- ===== src/FileLines.antt =====
-- cpp/src/macos/io_util_macos.hpp: `read_file`, which calls a handler with each line of a file and its
-- number; that of the other systems is the same. What the handler changes is a state that its calls
-- pass on. A file has fewer lines than an `int` counts.
pub mod Handled
mod Examples
use pensar.Base.{ℕ, zero, suc, ◌+◌, ◌≡◌, refl, Option, none, some, List, [], ◌∷◌, length}
use pensar.Base.Search.{break_at}

-- The loop of `std::getline`, which fails where no character is left; the text of the stream that is
-- left, `line_count`, and the state.
unfoldable pub line_loop {ℓ} :
    {A : Type ℓ} → (ℕ → List ℕ → A → A) → ℕ → List ℕ → ℕ → A → Option (A × ℕ)
unfolding break_at
line_loop f zero rest line_count state = none
line_loop f (suc fuel) [] line_count state = some (state, line_count)
line_loop f (suc fuel) (c ∷ rest) line_count state =
    let state_after = f line_count (break_at 10 (c ∷ rest)).0 state in
    elim (break_at 10 (c ∷ rest)).1 [
      | none ↦ some (state_after, suc line_count)
      | some after ↦ line_loop f fuel after (suc line_count) state_after
    ]

-- A file that does not open, `none`, has no lines.
unfoldable pub read_file {ℓ} :
    {A : Type ℓ} → (ℕ → List ℕ → A → A) → Option (List ℕ) → A → Option (A × ℕ)
unfolding line_loop
read_file f none state = some (state, 0)
read_file f (some text) state = line_loop f (suc (length text)) text 0 state
