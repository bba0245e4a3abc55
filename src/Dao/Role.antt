-- ===== src/Dao/Role.antt =====
-- contact/data/role_dao.hpp: the objects of roles and of the relations of persons, and `RoleDAO`.
use Prim.Native.String.{String}
use pensar.Base.{ℕ, Bool, Option, some, List, [], ◌∷◌, ◌==◌, if◌then◌else◌}
use pensar.Dao.{
  long_value, int_value, text_value, Soci, Reply, literals, ◌>>=◌, send, in_session, first_number,
  got_data, first_row, each_row, widen, flag, to_bool,
}

pub record RoleDto : Type 0 where
  pub id : ℕ
  pub org_unit_id : ℕ
  pub is_active : Bool

pub record LocalizedRoleDto : Type 0 where
  pub id : ℕ
  pub role_id : ℕ
  pub locale_id : ℕ
  pub name : List ℕ
  pub description : List ℕ

pub record PersonOrgRelationDto : Type 0 where
  pub id : ℕ
  pub person_id : ℕ
  pub org_unit_id : ℕ
  pub relationship : List ℕ
  pub start_date : List ℕ
  pub end_date : List ℕ
  pub is_active : Bool

pub record PersonRoleDto : Type 0 where
  pub id : ℕ
  pub person_id : ℕ
  pub role_id : ℕ
  pub assigned_date : List ℕ
  pub end_date : List ℕ
  pub is_primary : Bool

abbrev pub insert_root_role_text : List String
insert_root_role_text =
    "INSERT INTO t_role (org_unit_id, is_active)" ∷ " VALUES (NULL, :active::boolean)"
    ∷ " RETURNING id" ∷ []

abbrev pub insert_unit_role_text : List String
insert_unit_role_text =
    "INSERT INTO t_role (org_unit_id, is_active)" ∷ " VALUES (:oid, :active::boolean)"
    ∷ " RETURNING id" ∷ []

abbrev pub insert_localized_role_text : List String
insert_localized_role_text =
    "INSERT INTO t_localizedrole (role_id, locale_id, name, description)"
    ∷ " VALUES (:rid, :lid, :name, NULLIF(:desc,''))" ∷ " RETURNING id" ∷ []

abbrev pub find_role_text : List String
find_role_text =
    "SELECT id, COALESCE(org_unit_id, 0), is_active" ∷ " FROM t_role WHERE id = :id" ∷ []

abbrev pub remove_role_text : List String
remove_role_text = "DELETE FROM t_role WHERE id = :id RETURNING id" ∷ []

abbrev pub insert_relation_text : List String
insert_relation_text =
    "INSERT INTO t_personorgrelation"
    ∷ " (person_id, org_unit_id, relationship, start_date, end_date, is_active)" ∷ " VALUES"
    ∷ " (:pid, :oid, :rel::relationship_type, :sd::date,"
    ∷ "  NULLIF(:ed, '')::date, :active::boolean)" ∷ " RETURNING id" ∷ []

abbrev pub relations_text : List String
relations_text =
    "SELECT id, person_id, org_unit_id, relationship::text, "
    ∷ "start_date::text, COALESCE(end_date::text,''), is_active "
    ∷ "FROM t_personorgrelation WHERE person_id = :pid ORDER BY start_date DESC" ∷ []

abbrev pub assign_role_text : List String
assign_role_text =
    "INSERT INTO t_personrole" ∷ " (person_id, role_id, assigned_date, end_date, is_primary)"
    ∷ " VALUES" ∷ " (:pid, :rid," ∷ "  COALESCE(NULLIF(:ad, ''), CURRENT_DATE::text)::date,"
    ∷ "  NULLIF(:ed, '')::date, :primary::boolean)" ∷ " RETURNING id" ∷ []

abbrev pub roles_text : List String
roles_text =
    "SELECT id, person_id, role_id, assigned_date::text, "
    ∷ "COALESCE(end_date::text,''), is_primary "
    ∷ "FROM t_personrole WHERE person_id = :pid ORDER BY is_primary DESC, id" ∷ []

abbrev pub unassign_role_text : List String
unassign_role_text = "DELETE FROM t_personrole WHERE id = :id RETURNING id" ∷ []

module _ {ℓ} {W R : Type ℓ} (soci : Soci W R) where
  unfoldable pub role_of_row : R → Option RoleDto
  role_of_row r = do
    id ← soci.get_long_long 0 r
    org_unit_id ← soci.get_long_long 1 r
    is_active ← soci.get_int 2 r
    some (record { id = id; org_unit_id = org_unit_id; is_active = to_bool is_active })

  unfoldable pub relation_of_row : R → Option PersonOrgRelationDto
  relation_of_row r = do
    id ← soci.get_long_long 0 r
    person_id ← soci.get_long_long 1 r
    org_unit_id ← soci.get_long_long 2 r
    relationship ← soci.get_string 3 r
    start_date ← soci.get_string 4 r
    end_date ← soci.get_string 5 r
    is_active ← soci.get_int 6 r
    some (record {
      id = id;
      person_id = person_id;
      org_unit_id = org_unit_id;
      relationship = relationship;
      start_date = start_date;
      end_date = end_date;
      is_active = to_bool is_active;
    })

  unfoldable pub person_role_of_row : R → Option PersonRoleDto
  person_role_of_row r = do
    id ← soci.get_long_long 0 r
    person_id ← soci.get_long_long 1 r
    role_id ← soci.get_long_long 2 r
    assigned_date ← soci.get_string 3 r
    end_date ← soci.get_string 4 r
    is_primary ← soci.get_int 5 r
    some (record {
      id = id;
      person_id = person_id;
      role_id = role_id;
      assigned_date = assigned_date;
      end_date = end_date;
      is_primary = to_bool is_primary;
    })

  unfoldable pub insert_role : RoleDto → List ℕ → W → Reply ℕ W
  unfolding in_session send first_number
  insert_role r username = in_session soci username [] (
      if r.org_unit_id == 0
      then send soci (literals insert_root_role_text) (("active", flag r.is_active) ∷ [])
          (first_number soci)
      else send soci (literals insert_unit_role_text)
          (("oid", long_value r.org_unit_id) ∷ ("active", flag r.is_active) ∷ [])
          (first_number soci))

  unfoldable pub insert_localized_role : LocalizedRoleDto → List ℕ → W → Reply ℕ W
  unfolding in_session send first_number widen
  insert_localized_role lr username = in_session soci username [] (
      send soci (literals insert_localized_role_text)
        (("rid", long_value lr.role_id)
          ∷ ("lid", int_value (widen lr.locale_id))
          ∷ ("name", text_value lr.name)
          ∷ ("desc", text_value lr.description)
          ∷ [])
        (first_number soci))

  unfoldable pub find_role_by_id : ℕ → W → Reply (Option RoleDto) W
  unfolding in_session send first_row role_of_row
  find_role_by_id id =
      in_session soci [] []
        (send soci (literals find_role_text) (("id", long_value id) ∷ []) (first_row role_of_row))

  unfoldable pub remove_role : ℕ → List ℕ → W → Reply Bool W
  unfolding in_session send got_data
  remove_role id username =
      in_session soci username []
        (send soci (literals remove_role_text) (("id", long_value id) ∷ []) (got_data soci))

  unfoldable pub insert_person_org_relation : PersonOrgRelationDto → List ℕ → W → Reply ℕ W
  unfolding in_session send first_number
  insert_person_org_relation por username = in_session soci username [] (
      send soci (literals insert_relation_text)
        (("pid", long_value por.person_id)
          ∷ ("oid", long_value por.org_unit_id)
          ∷ ("rel", text_value por.relationship)
          ∷ ("sd", text_value por.start_date)
          ∷ ("ed", text_value por.end_date)
          ∷ ("active", flag por.is_active)
          ∷ [])
        (first_number soci))

  unfoldable pub relations_for_person : ℕ → W → Reply (List PersonOrgRelationDto) W
  unfolding in_session send each_row relation_of_row
  relations_for_person person_id = in_session soci [] [] (
      send soci (literals relations_text) (("pid", long_value person_id) ∷ [])
        (each_row relation_of_row))

  unfoldable pub assign_role : PersonRoleDto → List ℕ → W → Reply ℕ W
  unfolding in_session send first_number
  assign_role pr username = in_session soci username [] (
      send soci (literals assign_role_text)
        (("pid", long_value pr.person_id)
          ∷ ("rid", long_value pr.role_id)
          ∷ ("ad", text_value pr.assigned_date)
          ∷ ("ed", text_value pr.end_date)
          ∷ ("primary", flag pr.is_primary)
          ∷ [])
        (first_number soci))

  unfoldable pub roles_for_person : ℕ → W → Reply (List PersonRoleDto) W
  unfolding in_session send each_row person_role_of_row
  roles_for_person person_id = in_session soci [] [] (
      send soci (literals roles_text) (("pid", long_value person_id) ∷ [])
        (each_row person_role_of_row))

  unfoldable pub unassign_role : ℕ → List ℕ → W → Reply Bool W
  unfolding in_session send got_data
  unassign_role person_role_id username = in_session soci username [] (
      send soci (literals unassign_role_text) (("id", long_value person_role_id) ∷ [])
        (got_data soci))
