-- ===== src/Dao/Phone.antt =====
-- contact/data/contact_dao.hpp: `PhoneDTO`, and the part of `ContactDAO` for it.
use Prim.Native.String.{String}
use pensar.Base.{ℕ, Bool, not, ◌&&◌, Option, some, List, [], ◌∷◌, ◌==◌, if◌then◌else◌}
use pensar.Dao.{
  long_value, int_value, text_value, Soci, Reply, returns, literals, ◌>>=◌, send, in_session,
  first_number, got_data, each_row, Binding, widen, narrow, flag, to_bool,
}

pub record PhoneDto : Type 0 where
  pub id : ℕ
  pub person_id : ℕ
  pub org_unit_id : ℕ
  pub country_code : List ℕ
  pub area_code : List ℕ
  pub number : List ℕ
  pub extension : List ℕ
  pub is_mobile : Bool
  pub qualifier_id : ℕ
  pub is_preferred : Bool

abbrev pub insert_phone_person_text : List String
insert_phone_person_text =
    "INSERT INTO t_phone" ∷ " (person_id, org_unit_id, country_code, area_code, number,"
    ∷ "  extension, is_mobile, qualifier_id, is_preferred)" ∷ " VALUES"
    ∷ " (:pid, NULL, :cc, :ac, :num, NULLIF(:ext,'')," ∷ "  :mob::boolean, :qid, :pref::boolean)"
    ∷ " RETURNING id" ∷ []

abbrev pub insert_phone_org_text : List String
insert_phone_org_text =
    "INSERT INTO t_phone" ∷ " (person_id, org_unit_id, country_code, area_code, number,"
    ∷ "  extension, is_mobile, qualifier_id, is_preferred)" ∷ " VALUES"
    ∷ " (NULL, :oid, :cc, :ac, :num, NULLIF(:ext,'')," ∷ "  :mob::boolean, :qid, :pref::boolean)"
    ∷ " RETURNING id" ∷ []

abbrev pub phones_text : List String
phones_text =
    "SELECT id, COALESCE(person_id,0), COALESCE(org_unit_id,0), "
    ∷ "country_code, COALESCE(area_code,''), number, "
    ∷ "COALESCE(extension,''), is_mobile, qualifier_id, is_preferred "
    ∷ "FROM t_phone WHERE person_id = :pid ORDER BY is_preferred DESC, id" ∷ []

abbrev pub remove_phone_text : List String
remove_phone_text = "DELETE FROM t_phone WHERE id = :id RETURNING id" ∷ []

-- What the two statements of `insert_phone` bind, behind the owner.
unfoldable pub phone_bindings : PhoneDto → List Binding
unfolding widen
phone_bindings p =
    ("cc", text_value p.country_code)
    ∷ ("ac", text_value p.area_code)
    ∷ ("num", text_value p.number)
    ∷ ("ext", text_value p.extension)
    ∷ ("mob", flag p.is_mobile)
    ∷ ("qid", int_value (widen p.qualifier_id))
    ∷ ("pref", flag p.is_preferred)
    ∷ []

module _ {ℓ} {W R : Type ℓ} (soci : Soci W R) where
  unfoldable pub phone_of_row : R → Option PhoneDto
  unfolding narrow
  phone_of_row r = do
    id ← soci.get_long_long 0 r
    person_id ← soci.get_long_long 1 r
    org_unit_id ← soci.get_long_long 2 r
    country_code ← soci.get_string 3 r
    area_code ← soci.get_string 4 r
    number ← soci.get_string 5 r
    extension ← soci.get_string 6 r
    is_mobile ← soci.get_int 7 r
    qualifier_id ← soci.get_int 8 r
    is_preferred ← soci.get_int 9 r
    some (record {
      id = id;
      person_id = person_id;
      org_unit_id = org_unit_id;
      country_code = country_code;
      area_code = area_code;
      number = number;
      extension = extension;
      is_mobile = to_bool is_mobile;
      qualifier_id = narrow qualifier_id;
      is_preferred = to_bool is_preferred;
    })

  -- The owner is a person or an organisation; with both or neither there is no statement.
  unfoldable pub insert_phone : PhoneDto → List ℕ → W → Reply ℕ W
  unfolding in_session send first_number phone_bindings
  insert_phone p username = in_session soci username [] (
      if not (p.person_id == 0) && (p.org_unit_id == 0)
      then send soci (literals insert_phone_person_text)
          (("pid", long_value p.person_id) ∷ phone_bindings p) (first_number soci)
      else if (p.person_id == 0) && not (p.org_unit_id == 0)
      then send soci (literals insert_phone_org_text)
          (("oid", long_value p.org_unit_id) ∷ phone_bindings p) (first_number soci)
      else λ pos w. returns 0 w)

  unfoldable pub phones_for_person : ℕ → W → Reply (List PhoneDto) W
  unfolding in_session send each_row phone_of_row
  phones_for_person person_id = in_session soci [] [] (
      send soci (literals phones_text) (("pid", long_value person_id) ∷ []) (each_row phone_of_row))

  unfoldable pub remove_phone : ℕ → List ℕ → W → Reply Bool W
  unfolding in_session send got_data
  remove_phone id username =
      in_session soci username []
        (send soci (literals remove_phone_text) (("id", long_value id) ∷ []) (got_data soci))
