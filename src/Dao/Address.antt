-- ===== src/Dao/Address.antt =====
-- contact/data/contact_dao.hpp: `AddressDTO`, and the part of `ContactDAO` for it.
use Prim.Native.String.{String}
use pensar.Base.{ℕ, Bool, not, ◌&&◌, Option, some, List, [], ◌∷◌, ◌==◌, if◌then◌else◌}
use pensar.Dao.{
  long_value, int_value, text_value, double_value, Soci, Reply, returns, literals, ◌>>=◌, send,
  in_session, first_number, got_data, each_row, Binding, widen, narrow, flag, to_bool,
}

pub record AddressDto : Type 0 where
  pub id : ℕ
  pub person_id : ℕ
  pub org_unit_id : ℕ
  pub street_line1 : List ℕ
  pub street_line2 : List ℕ
  pub city : List ℕ
  pub state_province : List ℕ
  pub postal_code : List ℕ
  pub country : List ℕ
  pub qualifier_id : ℕ
  pub is_preferred : Bool
  pub latitude : ℕ
  pub longitude : ℕ

abbrev pub insert_address_person_text : List String
insert_address_person_text =
    "INSERT INTO t_address" ∷ " (person_id, org_unit_id, street_line1, street_line2, city,"
    ∷ "  state_province, postal_code, country, qualifier_id, is_preferred,"
    ∷ "  latitude, longitude)" ∷ " VALUES" ∷ " (:pid, NULL, :sl1, NULLIF(:sl2,''), :city,"
    ∷ "  NULLIF(:state,''), NULLIF(:pc,''), :ctry, :qid, :pref::boolean," ∷ "  :lat, :lng)"
    ∷ " RETURNING id" ∷ []

abbrev pub insert_address_org_text : List String
insert_address_org_text =
    "INSERT INTO t_address" ∷ " (person_id, org_unit_id, street_line1, street_line2, city,"
    ∷ "  state_province, postal_code, country, qualifier_id, is_preferred,"
    ∷ "  latitude, longitude)" ∷ " VALUES" ∷ " (NULL, :oid, :sl1, NULLIF(:sl2,''), :city,"
    ∷ "  NULLIF(:state,''), NULLIF(:pc,''), :ctry, :qid, :pref::boolean," ∷ "  :lat, :lng)"
    ∷ " RETURNING id" ∷ []

abbrev pub addresses_text : List String
addresses_text =
    "SELECT id, COALESCE(person_id,0), COALESCE(org_unit_id,0), "
    ∷ "street_line1, COALESCE(street_line2,''), city, "
    ∷ "COALESCE(state_province,''), COALESCE(postal_code,''), country, "
    ∷ "qualifier_id, is_preferred, " ∷ "COALESCE(latitude,0), COALESCE(longitude,0) "
    ∷ "FROM t_address WHERE person_id = :pid ORDER BY is_preferred DESC, id" ∷ []

abbrev pub remove_address_text : List String
remove_address_text = "DELETE FROM t_address WHERE id = :id RETURNING id" ∷ []

-- What the two statements of `insert_address` bind, behind the owner.
unfoldable pub address_bindings : AddressDto → List Binding
unfolding widen
address_bindings a =
    ("sl1", text_value a.street_line1)
    ∷ ("sl2", text_value a.street_line2)
    ∷ ("city", text_value a.city)
    ∷ ("state", text_value a.state_province)
    ∷ ("pc", text_value a.postal_code)
    ∷ ("ctry", text_value a.country)
    ∷ ("qid", int_value (widen a.qualifier_id))
    ∷ ("pref", flag a.is_preferred)
    ∷ ("lat", double_value a.latitude)
    ∷ ("lng", double_value a.longitude)
    ∷ []

module _ {ℓ} {W R : Type ℓ} (soci : Soci W R) where
  unfoldable pub address_of_row : R → Option AddressDto
  unfolding narrow
  address_of_row r = do
    id ← soci.get_long_long 0 r
    person_id ← soci.get_long_long 1 r
    org_unit_id ← soci.get_long_long 2 r
    street_line1 ← soci.get_string 3 r
    street_line2 ← soci.get_string 4 r
    city ← soci.get_string 5 r
    state_province ← soci.get_string 6 r
    postal_code ← soci.get_string 7 r
    country ← soci.get_string 8 r
    qualifier_id ← soci.get_int 9 r
    is_preferred ← soci.get_int 10 r
    latitude ← soci.get_double 11 r
    longitude ← soci.get_double 12 r
    some (record {
      id = id;
      person_id = person_id;
      org_unit_id = org_unit_id;
      street_line1 = street_line1;
      street_line2 = street_line2;
      city = city;
      state_province = state_province;
      postal_code = postal_code;
      country = country;
      qualifier_id = narrow qualifier_id;
      is_preferred = to_bool is_preferred;
      latitude = latitude;
      longitude = longitude;
    })

  -- The owner is a person or an organisation; with both or neither there is no statement.
  unfoldable pub insert_address : AddressDto → List ℕ → W → Reply ℕ W
  unfolding in_session send first_number address_bindings
  insert_address a username = in_session soci username [] (
      if not (a.person_id == 0) && (a.org_unit_id == 0)
      then send soci (literals insert_address_person_text)
          (("pid", long_value a.person_id) ∷ address_bindings a) (first_number soci)
      else if (a.person_id == 0) && not (a.org_unit_id == 0)
      then send soci (literals insert_address_org_text)
          (("oid", long_value a.org_unit_id) ∷ address_bindings a) (first_number soci)
      else λ pos w. returns 0 w)

  unfoldable pub addresses_for_person : ℕ → W → Reply (List AddressDto) W
  unfolding in_session send each_row address_of_row
  addresses_for_person person_id = in_session soci [] [] (
      send soci (literals addresses_text) (("pid", long_value person_id) ∷ [])
        (each_row address_of_row))

  unfoldable pub remove_address : ℕ → List ℕ → W → Reply Bool W
  unfolding in_session send got_data
  remove_address id username =
      in_session soci username []
        (send soci (literals remove_address_text) (("id", long_value id) ∷ []) (got_data soci))
