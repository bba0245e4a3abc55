-- ===== src/Dao/Person.antt =====
-- contact/data/person_dao.hpp: `PersonDTO` and `PersonDAO`.
use Prim.Native.String.{String}
use pensar.Base.{codes, ℕ, Bool, Option, some, List, [], ◌∷◌, ◌++◌}
use pensar.Dao.{
  long_value, int_value, text_value, Soci, Reply, literals, ◌>>=◌, send, in_session, first_number,
  got_data, first_row, each_row, Binding,
}

pub record PersonDto : Type 0 where
  pub id : ℕ
  pub first_name : List ℕ
  pub middle_name : List ℕ
  pub last_name : List ℕ
  pub federal_tax_id : List ℕ
  pub identification_number : List ℕ
  pub passport_number : List ℕ
  pub passport_country : List ℕ
  pub passport_expiry : List ℕ
  pub date_of_birth : List ℕ
  pub keywords : List ℕ

abbrev pub insert_text : List String
insert_text =
    "INSERT INTO t_person" ∷ " (first_name, middle_name, last_name, federal_tax_id,"
    ∷ "  identification_number, passport_number, passport_country,"
    ∷ "  passport_expiry, date_of_birth, keywords)" ∷ " VALUES"
    ∷ " (:first_name, NULLIF(:middle_name,''), :last_name,"
    ∷ "  NULLIF(:federal_tax_id,''), NULLIF(:identification_number,''),"
    ∷ "  NULLIF(:passport_number,''), NULLIF(:passport_country,''),"
    ∷ "  NULLIF(:passport_expiry,'')::date, NULLIF(:date_of_birth,'')::date,"
    ∷ "  NULLIF(:keywords,''))" ∷ " RETURNING id" ∷ []

abbrev pub find_text : List String
find_text =
    "SELECT id, first_name, COALESCE(middle_name,'') AS middle_name,"
    ∷ " last_name, COALESCE(federal_tax_id,'') AS federal_tax_id,"
    ∷ " COALESCE(identification_number,'') AS identification_number,"
    ∷ " COALESCE(passport_number,'') AS passport_number,"
    ∷ " COALESCE(passport_country,'') AS passport_country,"
    ∷ " COALESCE(passport_expiry::text,'') AS passport_expiry,"
    ∷ " COALESCE(date_of_birth::text,'') AS date_of_birth," ∷ " COALESCE(keywords,'') AS keywords"
    ∷ " FROM t_person WHERE id = :id" ∷ []

abbrev pub update_text : List String
update_text =
    "UPDATE t_person SET" ∷ " first_name = :first_name," ∷ " middle_name = NULLIF(:middle_name,''),"
    ∷ " last_name = :last_name," ∷ " federal_tax_id = NULLIF(:federal_tax_id,''),"
    ∷ " identification_number = NULLIF(:identification_number,''),"
    ∷ " passport_number = NULLIF(:passport_number,''),"
    ∷ " passport_country = NULLIF(:passport_country,''),"
    ∷ " passport_expiry = NULLIF(:passport_expiry,'')::date,"
    ∷ " date_of_birth = NULLIF(:date_of_birth,'')::date," ∷ " keywords = NULLIF(:keywords,'')"
    ∷ " WHERE id = :id RETURNING id" ∷ []

abbrev pub remove_text : List String
remove_text = "DELETE FROM t_person WHERE id = :id RETURNING id" ∷ []

abbrev select_text : List String
select_text =
    "SELECT id, first_name, COALESCE(middle_name,''), last_name, "
    ∷ "COALESCE(federal_tax_id,''), COALESCE(identification_number,''), "
    ∷ "COALESCE(passport_number,''), COALESCE(passport_country,''), "
    ∷ "COALESCE(passport_expiry::text,''), COALESCE(date_of_birth::text,''), "
    ∷ "COALESCE(keywords,'') " ∷ []

abbrev list_all_text : List String
list_all_text =
    select_text ++ ("FROM t_person ORDER BY last_name, first_name " ∷ "LIMIT :lim OFFSET :off" ∷ [])

abbrev find_by_last_name_text : List String
find_by_last_name_text =
    select_text
    ++ ("FROM t_person WHERE last_name ILIKE :pat " ∷ "ORDER BY last_name, first_name" ∷ [])

-- The values that `insert` and `update` bind, before the identifier of an update.
unfoldable pub person_bindings : PersonDto → List Binding → List Binding
person_bindings p rest =
    ("first_name", text_value p.first_name)
    ∷ ("middle_name", text_value p.middle_name)
    ∷ ("last_name", text_value p.last_name)
    ∷ ("federal_tax_id", text_value p.federal_tax_id)
    ∷ ("identification_number", text_value p.identification_number)
    ∷ ("passport_number", text_value p.passport_number)
    ∷ ("passport_country", text_value p.passport_country)
    ∷ ("passport_expiry", text_value p.passport_expiry)
    ∷ ("date_of_birth", text_value p.date_of_birth)
    ∷ ("keywords", text_value p.keywords)
    ∷ rest

module _ {ℓ} {W R : Type ℓ} (soci : Soci W R) where
  -- The columns of a row, in the order in which they are read.
  unfoldable pub person_of_row : R → Option PersonDto
  person_of_row r = do
    id ← soci.get_long_long 0 r
    first_name ← soci.get_string 1 r
    middle_name ← soci.get_string 2 r
    last_name ← soci.get_string 3 r
    federal_tax_id ← soci.get_string 4 r
    identification_number ← soci.get_string 5 r
    passport_number ← soci.get_string 6 r
    passport_country ← soci.get_string 7 r
    passport_expiry ← soci.get_string 8 r
    date_of_birth ← soci.get_string 9 r
    keywords ← soci.get_string 10 r
    some (record {
      id = id;
      first_name = first_name;
      middle_name = middle_name;
      last_name = last_name;
      federal_tax_id = federal_tax_id;
      identification_number = identification_number;
      passport_number = passport_number;
      passport_country = passport_country;
      passport_expiry = passport_expiry;
      date_of_birth = date_of_birth;
      keywords = keywords;
    })

  unfoldable pub insert : PersonDto → List ℕ → W → Reply ℕ W
  unfolding in_session send first_number person_bindings
  insert p username =
      in_session soci username []
        (send soci (literals insert_text) (person_bindings p []) (first_number soci))

  unfoldable pub find_by_id : ℕ → W → Reply (Option PersonDto) W
  unfolding in_session send first_row person_of_row
  find_by_id id =
      in_session soci [] []
        (send soci (literals find_text) (("id", long_value id) ∷ []) (first_row person_of_row))

  unfoldable pub update : PersonDto → List ℕ → W → Reply Bool W
  unfolding in_session send got_data person_bindings
  update p username = in_session soci username [] (
      send soci (literals update_text) (person_bindings p (("id", long_value p.id) ∷ []))
        (got_data soci))

  unfoldable pub remove : ℕ → List ℕ → W → Reply Bool W
  unfolding in_session send got_data
  remove id username =
      in_session soci username []
        (send soci (literals remove_text) (("id", long_value id) ∷ []) (got_data soci))

  unfoldable pub list_all : ℕ → ℕ → W → Reply (List PersonDto) W
  unfolding in_session send each_row person_of_row
  list_all limit offset = in_session soci [] [] (
      send soci (literals list_all_text) (("lim", int_value limit) ∷ ("off", int_value offset) ∷ [])
        (each_row person_of_row))

  unfoldable pub find_by_last_name : List ℕ → W → Reply (List PersonDto) W
  unfolding in_session send each_row person_of_row
  find_by_last_name pattern_text =
      let like_pattern = codes "%" ++ (pattern_text ++ codes "%") in
      in_session soci [] [] (
        send soci (literals find_by_last_name_text) (("pat", text_value like_pattern) ∷ [])
          (each_row person_of_row))
