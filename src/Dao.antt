-- ===== src/Dao.antt =====
-- contact/data: the data access objects, which send statements to the database in a session of
-- DbConnection. A statement is its text and the values bound to its names; what it does, and what a
-- column of a row holds, are parameters. A `long long` is a number below 2 to the 64, an `int` one
-- below 2 to the 32 and an `int16_t` one below 2 to the 16, all in two's complement; a `double` is
-- the number of its bits. A text is a list of character codes.
pub mod Person
pub mod Phone
pub mod Email
pub mod Address
pub mod Role
pub mod Org
pub mod Visibility
pub mod Audit
pub mod Searches
pub mod Locale
pub mod Calls
pub mod Leases
pub mod Sessions
pub mod Sql
pub mod PersonTable
pub mod Owners
pub mod Filters
mod SampleTable
mod Examples
use Prim.Native.String.{String}
use pensar.Base.{
  codes, ℕ, ◌+◌, ◌-◌, ◌%◌, ◌^◌, Bool, true, false, not, Option, none, some, List, [], ◌∷◌, ◌++◌,
  ◌==◌, ltb, if◌then◌else◌,
}
use pensar.DbConnection.{Database, session, session_at, not_constructed, close_session}

-- Text literals in a row.
unfoldable pub literals : List String → List ℕ
unfolding codes
literals [] = []
literals (s ∷ ss) = codes s ++ literals ss

-- What `soci::use` binds.
pub data Value : Type 0 where
  long_value int_value double_value : ℕ → Value
  text_value : List ℕ → Value

abbrev pub Binding : Type 0
Binding = String × Value

-- How a statement ends.
pub data Answer {ℓ} (W R : Type ℓ) : Type ℓ where
  answered : List R → W → Answer W R
  refused : W → Answer W R

-- The database library: its pool, its statements, and its rows, whose columns are read as one type
-- or another; a column that cannot be is an exception.
pub record Soci {ℓ} (W R : Type ℓ) : Type ℓ where
  pub database : Database W
  pub query : ℕ → List ℕ → List Binding → W → Answer W R
  pub get_long_long : ℕ → R → Option ℕ
  pub get_int : ℕ → R → Option ℕ
  pub get_string : ℕ → R → Option (List ℕ)
  pub get_double : ℕ → R → Option ℕ

-- How a method of a data access object ends.
pub data Reply {ℓ} (A : Type 0) (W : Type ℓ) : Type ℓ where
  returns : A → W → Reply A W
  raises : W → Reply A W

-- A chain of columns, each of which may be unreadable.
infixl 5 ◌>>=◌
abbrev pub ◌>>=◌ : {A B : Type 0} → Option A → (A → Option B) → Option B
none >>= f = none
some a >>= f = f a

-- `static_cast<int>` of an `int16_t`, and back.
unfoldable pub widen : ℕ → ℕ
widen n = if ltb n (2 ^ 15) then n else n + 2 ^ 32 - 2 ^ 16

unfoldable pub narrow : ℕ → ℕ
narrow n = n % 2 ^ 16

-- `b ? 1 : 0`, and `!= 0`.
abbrev pub flag : Bool → Value
flag b = if b then int_value 1 else int_value 0

abbrev pub to_bool : ℕ → Bool
to_bool n = not (n == 0)

abbrev pub converted {ℓ} : {A : Type 0} {W : Type ℓ} → Option A → W → Reply A W
converted none w = raises w
converted (some a) w = returns a w

abbrev pub of_answer {ℓ} :
    {A : Type 0} {W R : Type ℓ} → (List R → Option A) → Answer W R → Reply A W
of_answer f (answered rows w) = converted (f rows) w
of_answer f (refused w) = raises w

module _ {ℓ} {W R : Type ℓ} (soci : Soci W R) where
  -- A statement, and what the method makes of its rows.
  unfoldable pub send :
      {A : Type 0} → List ℕ → List Binding → (List R → Option A) → ℕ → W → Reply A W
  send text bindings f pos w = of_answer f (soci.query pos text bindings w)

  abbrev pub close : {A : Type 0} → ℕ → Reply A W → Reply A W
  close pos (returns a w) = returns a (close_session soci.database pos w)
  close pos (raises w) = raises (close_session soci.database pos w)

  -- A method: a session, whose destructor runs however the body ends.
  unfoldable pub in_session : {A : Type 0} → List ℕ → List ℕ → (ℕ → W → Reply A W) → W → Reply A W
  in_session username locale body w = elim (session soci.database username locale w) [
    | session_at pos w' ↦ close pos (body pos w')
    | not_constructed w' ↦ raises w'
  ]

  -- `soci::into` of a number that is 0 before, and returned.
  unfoldable pub first_number : List R → Option ℕ
  first_number [] = some 0
  first_number (r ∷ rs) = soci.get_long_long 0 r

  -- `soci::into` of a number, and `got_data`.
  unfoldable pub got_data : List R → Option Bool
  got_data [] = some false
  got_data (r ∷ rs) = soci.get_long_long 0 r >>= λ n. some true

-- `soci::into` of a row, `got_data`, and the object made of the row.
unfoldable pub first_row {ℓ} :
    {A : Type 0} {R : Type ℓ} → (R → Option A) → List R → Option (Option A)
first_row f [] = some none
first_row f (r ∷ rs) = f r >>= λ a. some (some a)

-- The loop over the rows of a `soci::rowset`.
unfoldable pub each_row {ℓ} : {A : Type 0} {R : Type ℓ} → (R → Option A) → List R → Option (List A)
each_row f [] = some []
each_row f (r ∷ rs) = let rest = each_row f rs in f r >>= λ a. rest >>= λ bs. some (a ∷ bs)
