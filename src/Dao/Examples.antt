-- ===== src/Dao/Examples.antt =====
-- The theorems on the data access objects at concrete databases.
use pensar.Base.{
  codes, ℕ, ◌≡◌, refl, true, false, Bool, ◌||◌, ◌-◌, ◌==◌, length, get_or, none, some, List, [],
  ◌∷◌, ◌++◌,
}
use pensar.DbConnection.SamplePool.{is_member, pool, pool-IsPool}
use pensar.DbConnection.Quoting.{read_literal}
use pensar.Dao.{Soci, answered}
use pensar.Dao.Calls.{Call, run, insert_role, list_locales, remove_person}
use pensar.Dao.Person.{PersonDto}
use pensar.Dao.Visibility.{DataVisibilityDto, insert_rule}
use pensar.Dao.Audit.{where_clause}
use pensar.Dao.Leases.{IsDatabase, lost, run-leased}
use pensar.Dao.Sql.{Columns}
use pensar.Dao.SampleTable.{Table, table}
use pensar.Dao.Owners.{first_viewer, insert_rule-first_viewer}
use pensar.Dao.Filters.{where_clause-injected}

-- A pool with statements that find nothing; the variables of the user cannot be set to `x`.
abbrev refuses_x : List ℕ → Bool
refuses_x text = get_or text (length text - 2) 0 == b'x'

abbrev empty_database : Soci (List ℕ) ℕ
empty_database = record {
  database = pool refuses_x;
  query = λ pos text b w. answered [] w;
  get_long_long = λ i r. some r;
  get_int = λ i r. some r;
  get_string = λ i r. none;
  get_double = λ i r. none;
}

empty_database-IsDatabase : IsDatabase empty_database (λ w j. is_member j w)
empty_database-IsDatabase = record { pool = pool-IsPool refuses_x; sent = λ pos text b w j. refl }

-- The session of the last call is not constructed.
abbrev some_calls : List Call
some_calls =
    insert_role (record { id = 0; org_unit_id = 4; is_active = true }) (b'y' ∷ [])
    ∷ list_locales
    ∷ remove_person 3 (b'x' ∷ [])
    ∷ []

run-leased_example :
    is_member 6 (run empty_database (λ n. n) some_calls (5 ∷ []))
    ≡ (is_member 6 (5 ∷ []) || lost empty_database (λ n. n) some_calls (5 ∷ []) 6)
run-leased_example =
    run-leased empty_database (λ w j. is_member j w) empty_database-IsDatabase (λ n. n) some_calls
      (5 ∷ []) 6

abbrev ann : PersonDto
ann = record {
  id = 0;
  first_name = 65 ∷ 110 ∷ [];
  middle_name = [];
  last_name = 76 ∷ [];
  federal_tax_id = 49 ∷ [];
  identification_number = 50 ∷ [];
  passport_number = 51 ∷ [];
  passport_country = 52 ∷ [];
  passport_expiry = [];
  date_of_birth = [];
  keywords = 107 ∷ [];
}

abbrev other_columns : Columns
other_columns name = some (120 ∷ [])

abbrev one_person : Table
one_person = some other_columns ∷ []

abbrev two_viewers : DataVisibilityDto
two_viewers = record {
  id = 0;
  owner_person_id = 1;
  data_category = 65 ∷ [];
  viewer_person_id = 2;
  viewer_role_id = 3;
  viewer_org_unit_id = 0;
  can_view = true;
  can_edit = false;
}

insert_rule-first_viewer_example :
    insert_rule table two_viewers []
    ≡ insert_rule table (record two_viewers { viewer_role_id = 0 }) []
unfolding first_viewer
insert_rule-first_viewer_example = insert_rule-first_viewer table two_viewers []

-- `C' OR`
where_clause-injected_example :
    (w behind : List ℕ) × (where_clause (67 ∷ 39 ∷ 32 ∷ 79 ∷ 82 ∷ []) [] [] []
      ≡ codes "WHERE 1=1 AND action = " ++ w)
    × (read_literal w ≡ some (67 ∷ [], 32 ∷ 79 ∷ 82 ∷ behind))
where_clause-injected_example =
    where_clause-injected (67 ∷ []) (79 ∷ 82 ∷ []) [] [] [] 32 (refl, tt) refl
