-- ===== src/Dao/Sql/Persons.antt =====
-- What three statements of PersonDAO say.
use Prim.Native.String.{String}
use pensar.Base.{codes, ℕ, ◌≡◌, refl, some, List, [], ◌∷◌, map}
use pensar.Dao.{literals}
use pensar.Dao.Person.{insert_text, find_text, update_text}
use pensar.Dao.Sql.{
  Expression, plain, nullable, Item, column, coalesced, insert_into, select_from, update_set,
  read_statement,
}

abbrev pub person_table : List ℕ
unfolding codes
person_table = codes "t_person"

abbrev optional : List String
optional =
    "federal_tax_id" ∷ "identification_number" ∷ "passport_number" ∷ "passport_country"
    ∷ "passport_expiry" ∷ "date_of_birth" ∷ "keywords" ∷ []

abbrev own_value : String → List ℕ × Expression
unfolding codes
own_value s = (codes s, nullable (codes s))

-- Each column is given the value bound to its name; the first and the last name as they are.
abbrev pub person_values : List (List ℕ × Expression)
unfolding codes
person_values =
    (codes "first_name", plain (codes "first_name"))
    ∷ own_value "middle_name"
    ∷ (codes "last_name", plain (codes "last_name"))
    ∷ map own_value optional

abbrev pub person_items : List Item
unfolding codes
person_items =
    column (codes "id")
    ∷ column (codes "first_name")
    ∷ coalesced (codes "middle_name")
    ∷ column (codes "last_name")
    ∷ map (λ s. coalesced (codes s)) optional

pub insert_text-says :
    read_statement (literals insert_text) ≡ some (insert_into person_table person_values)
unfolding read_statement literals codes
insert_text-says = refl

pub find_text-says :
    read_statement (literals find_text) ≡ some (select_from person_items person_table (codes "id"))
unfolding read_statement literals codes
find_text-says = refl

pub update_text-says :
    read_statement (literals update_text)
    ≡ some (update_set person_table person_values (codes "id"))
unfolding read_statement literals codes
update_text-says = refl
