-- ===== src/DbConnection.antt =====
-- contact/data/db_connection.hpp: `DbConnection`, a pool of database connections, and its
-- `ScopedSession`, which borrows one of them, sets its variables and gives it back. The pool and
-- the sessions of the database library are a parameter: what a lease, a statement, an opening and a
-- return do to a world. A text is a list of character codes.
pub mod Quoting
pub mod Leases
pub mod SamplePool
mod Examples
use pensar.Base.{ℕ, zero, suc, ◌+◌, List, [], ◌∷◌, ◌++◌, is_empty, ◌==◌, if◌then◌else◌}

-- How a call of the library ends: it returns or throws, in a world.
pub data Step {ℓ} (W : Type ℓ) : Type ℓ where
  runs fails : W → Step W

pub record Database {ℓ} (W : Type ℓ) : Type ℓ where
  pub lease : W → ℕ × W
  pub give_back : ℕ → W → W
  pub open_at : ℕ → List ℕ → W → Step W
  pub execute : ℕ → List ℕ → W → Step W

abbrev pub step_then {ℓ} : {W : Type ℓ} → Step W → (W → Step W) → Step W
step_then (runs w) f = f w
step_then (fails w) f = fails w

-- The loop of `quote_literal`: a quote is doubled.
pub quote_chars : List ℕ → List ℕ
quote_chars [] = []
quote_chars (c ∷ s) = let rest = quote_chars s in if c == 39 then 39 ∷ 39 ∷ rest else c ∷ rest

unfoldable pub quote_literal : List ℕ → List ℕ
unfolding quote_chars
quote_literal s = (39 ∷ quote_chars s) ++ (39 ∷ [])

-- `SET "app.current_user" = ` and `SET "app.locale" = `.
abbrev pub set_user : List ℕ
set_user =
    83 ∷ 69 ∷ 84 ∷ 32 ∷ 34 ∷ 97 ∷ 112 ∷ 112 ∷ 46 ∷ 99 ∷ 117 ∷ 114 ∷ 114 ∷ 101 ∷ 110 ∷ 116 ∷ 95 ∷ 117
    ∷ 115 ∷ 101 ∷ 114 ∷ 34 ∷ 32 ∷ 61 ∷ 32 ∷ []

abbrev pub set_locale : List ℕ
set_locale =
    83 ∷ 69 ∷ 84 ∷ 32 ∷ 34 ∷ 97 ∷ 112 ∷ 112 ∷ 46 ∷ 108 ∷ 111 ∷ 99 ∷ 97 ∷ 108 ∷ 101 ∷ 34 ∷ 32 ∷ 61
    ∷ 32 ∷ []

-- `RESET "app.current_user"` and `RESET "app.locale"`.
abbrev pub reset_user : List ℕ
reset_user =
    82 ∷ 69 ∷ 83 ∷ 69 ∷ 84 ∷ 32 ∷ 34 ∷ 97 ∷ 112 ∷ 112 ∷ 46 ∷ 99 ∷ 117 ∷ 114 ∷ 114 ∷ 101 ∷ 110 ∷ 116
    ∷ 95 ∷ 117 ∷ 115 ∷ 101 ∷ 114 ∷ 34 ∷ []

abbrev pub reset_locale : List ℕ
reset_locale =
    82 ∷ 69 ∷ 83 ∷ 69 ∷ 84 ∷ 32 ∷ 34 ∷ 97 ∷ 112 ∷ 112 ∷ 46 ∷ 108 ∷ 111 ∷ 99 ∷ 97 ∷ 108 ∷ 101 ∷ 34
    ∷ []

-- How the constructor of a `ScopedSession` ends: with the position it leased, or by an exception.
pub data Session {ℓ} (W : Type ℓ) : Type ℓ where
  session_at : ℕ → W → Session W
  not_constructed : W → Session W

abbrev pub of_step {ℓ} : {W : Type ℓ} → ℕ → Step W → Session W
of_step pos (runs w) = session_at pos w
of_step pos (fails w) = not_constructed w

abbrev pub world {ℓ} : {W : Type ℓ} → Step W → W
world (runs w) = w
world (fails w) = w

module _ {ℓ} {W : Type ℓ} (db : Database W) where
  -- A variable is set only to a text that is not empty.
  unfoldable pub set_variable : ℕ → List ℕ → List ℕ → W → Step W
  unfolding quote_literal
  set_variable pos statement text w =
      if is_empty text then runs w else db.execute pos (statement ++ quote_literal text) w

  -- The constructor. An exception leaves it at once, and no destructor runs.
  unfoldable pub session : List ℕ → List ℕ → W → Session W
  unfolding set_variable
  session username locale w =
      let (pos, w₁) = db.lease w in
      of_step pos
        (step_then (set_variable pos set_user username w₁) (set_variable pos set_locale locale))

  -- The destructor: an exception of a statement ends the `try` block, and is dropped.
  unfoldable pub close_session : ℕ → W → W
  close_session pos w =
      db.give_back pos
        (world (step_then (db.execute pos reset_user w) (db.execute pos reset_locale)))

  -- The constructor of `DbConnection` opens each connection: those left, and the next position.
  pub open_from : ℕ → ℕ → List ℕ → W → Step W
  open_from zero i conn_string w = runs w
  open_from (suc left) i conn_string w =
      step_then (db.open_at i conn_string w) (open_from left (suc i) conn_string)

  pub open_pool : List ℕ → ℕ → W → Step W
  unfolding open_from
  open_pool conn_string pool_size w = open_from pool_size 0 conn_string w
