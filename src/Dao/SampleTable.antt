-- ===== src/Dao/SampleTable.antt =====
-- A table of persons that can be run: a list, whose positions are the identifiers. It does with a
-- statement what its text says, whatever the table.
use mathlib.Core.Path.{fun_ext}
use pensar.Base.{
  ℕ, zero, suc, ◌≡◌, refl, ap, ◌∙◌, Option, none, some, List, [], ◌∷◌, ◌++◌, get_elem?, set, length,
  arith,
}
use pensar.DbConnection.{runs}
use pensar.Dao.{Soci, Answer, answered, refused, Binding}
use pensar.Dao.Sessions.{IsNeutral}
use pensar.Dao.Sql.{
  Columns, Item, Statement, insert_into, select_from, update_set, read_statement, bound_number,
  assign, shown,
}
use pensar.Dao.PersonTable.{Rows, put, no_columns, IsTable}

abbrev pub Table : Type 0
Table = List (Option Columns)

abbrev pub stored : Table → Rows
stored [] j = none
stored (c ∷ t) zero = c
stored (c ∷ t) (suc j) = stored t j

-- An identifier, and the items of a row.
abbrev Row : Type 0
Row = ℕ × List Item × Columns

abbrev row_of : ℕ → List Item → Option Columns → List Row
row_of id items none = []
row_of id items (some c) = (id, items, c) ∷ []

abbrev updated_row : Option Columns → Columns
updated_row none = no_columns
updated_row (some c) = c

abbrev run_select : List Item → Option ℕ → Table → Answer Table Row
run_select items none t = refused t
run_select items (some id) t = answered (row_of id items (stored t id)) t

abbrev run_update : (Columns → Columns) → Option ℕ → Table → Answer Table Row
run_update change none t = refused t
run_update change (some id) t =
    answered (row_of id [] (stored t id)) (set t id (some (change (updated_row (stored t id)))))

abbrev run_statement : Option Statement → List Binding → Table → Answer Table Row
run_statement none b t = refused t
run_statement (some (insert_into table pairs)) b t =
    answered ((length t, [], no_columns) ∷ []) (t ++ (some (assign pairs b no_columns) ∷ []))
run_statement (some (select_from items table key)) b t = run_select items (bound_number b key) t
run_statement (some (update_set table pairs key)) b t =
    run_update (assign pairs b) (bound_number b key) t

abbrev shown_at : Option Item → Columns → Option (List ℕ)
shown_at none c = none
shown_at (some i) c = shown i c

abbrev pub table : Soci Table Row
table = record {
  database = record {
    lease = λ t. (0, t);
    give_back = λ pos t. t;
    open_at = λ pos text t. runs t;
    execute = λ pos text t. runs t;
  };
  query = λ pos text b t. run_statement (read_statement text) b t;
  get_long_long = λ i r. some r.0;
  get_int = λ i r. none;
  get_string = λ i r. shown_at (get_elem? r.1 i) r.2;
  get_double = λ i r. none;
}

pub table-IsNeutral : IsNeutral table stored
table-IsNeutral = record {
  leased = λ t. refl;
  returned = λ pos t. refl;
  user_set = λ pos user t. refl;
  user_reset = λ pos t. refl;
  locale_reset = λ pos t. refl;
}

stored-append :
    (t : Table) (c : Columns) (j : ℕ)
    → stored (t ++ (some c ∷ [])) j ≡ put (length t) (some c) (stored t) j
stored-append [] c zero = refl
stored-append [] c (suc j) = ground arith
stored-append (x ∷ t) c zero = ground arith
stored-append (x ∷ t) c (suc j) = ground (arith, stored-append t c j)

stored-end : (t : Table) → stored t (length t) ≡ none
stored-end [] = refl
stored-end (x ∷ t) = stored-end t

stored-set :
    (t : Table) (id : ℕ) (old : Columns) (v : Option Columns) (j : ℕ)
    → stored t id ≡ some old
    → stored (set t id v) j ≡ put id v (stored t) j
stored-set [] id old v j h = absurd (ground arith)
stored-set (x ∷ t) zero old v zero h = refl
stored-set (x ∷ t) zero old v (suc j) h = ground arith
stored-set (x ∷ t) (suc id) old v zero h = ground arith
stored-set (x ∷ t) (suc id) old v (suc j) h = ground (arith, stored-set t id old v j h)

pub table-IsTable : IsTable table stored (λ rows c. Unit)
table-IsTable = record {
  inserted = λ pos text pairs b t e accepts. (
    length t,
    no_columns,
    (length t, [], no_columns),
    t ++ (some (assign pairs b no_columns) ∷ []),
    ap (λ s. run_statement s b t) e,
    refl,
    stored-end t,
    fun_ext (stored-append t (assign pairs b no_columns)),
  );
  found = λ pos id text items key b c t e bound h. (
    (id, items, c),
    t,
    ap (λ s. run_statement s b t) e
        ∙ ap (λ k. run_select items k t) bound
        ∙ ap (λ o. answered (row_of id items o) t) h,
    λ i it. refl,
    λ i it at. ap (λ o. shown_at o c) at,
  );
  updated = λ pos id text pairs key b c t e bound h accepts. (
    (id, [], c),
    set t id (some (assign pairs b c)),
    ap (λ s. run_statement s b t) e
        ∙ ap (λ k. run_update (assign pairs b) k t) bound
        ∙ ap (λ o. answered (row_of id [] o) (set t id (some (assign pairs b (updated_row o))))) h,
    refl,
    fun_ext (λ j. stored-set t id c (some (assign pairs b c)) j h),
  );
}
