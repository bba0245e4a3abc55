-- ===== src/Dao/PersonTable.antt =====
-- The persons that `PersonDAO` writes and reads, over a database that does with a table what the
-- texts of the statements say.
use pensar.Base.{codes, ℕ, ◌≡◌, Option, none, some, List, [], ◌∷◌, ◌==◌, if◌then◌else◌, get_elem?}
use pensar.Dao.{Soci, answered, Binding}
use pensar.Dao.Sql.{
  Columns, Expression, Item, column, insert_into, select_from, update_set, read_statement,
  bound_number, assign, shown,
}
use pensar.Dao.Sql.Persons.{person_table, person_values}
use pensar.Dao.Person.{PersonDto, person_bindings}

-- The table, by identifiers.
abbrev pub Rows : Type 0
Rows = ℕ → Option Columns

abbrev pub put : ℕ → Option Columns → Rows → Rows
put id columns rows j = if j == id then columns else rows j

abbrev pub no_columns : Columns
no_columns c = none

-- How a database executes a statement on the table of persons, whatever its text and its bindings
-- are: an INSERT gives the columns that it names their values and the others defaults, in a row of a
-- free identifier; a SELECT by identifier gives the items of the row; an UPDATE by identifier changes
-- the columns that it names. `Accepts` are the values given to columns against which no constraint
-- stands; the dates among them are written as the database writes them.
pub record IsTable {ℓ} {W R : Type ℓ} (soci : Soci W R) (stored : W → Rows)
    (Accepts : Rows → Columns → Type 0) : Type ℓ where
  pub inserted :
      (pos : ℕ) (text : List ℕ) (pairs : List (List ℕ × Expression)) (bindings : List Binding)
      (w : W)
      → read_statement text ≡ some (insert_into person_table pairs)
      → Accepts (stored w) (assign pairs bindings no_columns)
      → (id : ℕ) × (defaults : Columns) × (r : R) × (w' : W) × (soci.query pos text bindings w
          ≡ answered (r ∷ []) w')
        × (soci.get_long_long 0 r ≡ some id)
        × (stored w id ≡ none)
        × (stored w' ≡ put id (some (assign pairs bindings defaults)) (stored w))
  pub found :
      (pos id : ℕ) (text : List ℕ) (items : List Item) (key : List ℕ) (bindings : List Binding)
      (columns : Columns) (w : W)
      → read_statement text ≡ some (select_from items person_table key)
      → bound_number bindings key ≡ some id
      → stored w id ≡ some columns
      → (r : R) × (w' : W) × (soci.query pos text bindings w ≡ answered (r ∷ []) w')
        × ((i : ℕ)
            → get_elem? items i ≡ some (column (codes "id"))
            → soci.get_long_long i r ≡ some id)
        × ((i : ℕ) (it : Item)
            → get_elem? items i ≡ some it
            → soci.get_string i r ≡ shown it columns)
  pub updated :
      (pos id : ℕ) (text : List ℕ) (pairs : List (List ℕ × Expression)) (key : List ℕ)
      (bindings : List Binding) (columns : Columns) (w : W)
      → read_statement text ≡ some (update_set person_table pairs key)
      → bound_number bindings key ≡ some id
      → stored w id ≡ some columns
      → Accepts (stored w) (assign pairs bindings no_columns)
      → (r : R) × (w' : W) × (soci.query pos text bindings w ≡ answered (r ∷ []) w')
        × (soci.get_long_long 0 r ≡ some id)
        × (stored w' ≡ put id (some (assign pairs bindings columns)) (stored w))

-- The values that a person has in the columns of the table.
unfoldable pub person_columns : PersonDto → Columns
unfolding assign person_bindings
person_columns p = assign person_values (person_bindings p []) no_columns
