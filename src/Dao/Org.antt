-- ===== src/Dao/Org.antt =====
-- contact/data/org_dao.hpp: the objects of units of an organisation, and `OrgDAO`.
use Prim.Native.String.{String}
use pensar.Base.{ℕ, Bool, Option, some, List, [], ◌∷◌, ◌==◌, if◌then◌else◌}
use pensar.Dao.{
  long_value, int_value, text_value, Soci, Reply, literals, ◌>>=◌, send, in_session, first_number,
  got_data, first_row, each_row, Binding, widen, flag, to_bool,
}

pub record OrgUnitDto : Type 0 where
  pub id : ℕ
  pub parent_id : ℕ
  pub org_type : List ℕ
  pub federal_tax_id : List ℕ
  pub is_active : Bool
  pub keywords : List ℕ

pub record LocalizedOrgUnitDto : Type 0 where
  pub id : ℕ
  pub org_unit_id : ℕ
  pub locale_id : ℕ
  pub name : List ℕ

pub record OrgHierarchyDto : Type 0 where
  pub id : ℕ
  pub parent_id : ℕ
  pub name : List ℕ
  pub org_type : List ℕ
  pub keywords : List ℕ
  pub depth : ℕ

abbrev pub insert_root_text : List String
insert_root_text =
    "INSERT INTO t_orgunit (parent_id, org_type, federal_tax_id, is_active, keywords)"
    ∷ " VALUES (NULL, :org_type, NULLIF(:tax_id,''), :active::boolean, NULLIF(:keywords,''))"
    ∷ " RETURNING id" ∷ []

abbrev pub insert_child_text : List String
insert_child_text =
    "INSERT INTO t_orgunit (parent_id, org_type, federal_tax_id, is_active, keywords)"
    ∷ " VALUES (:parent_id, :org_type, NULLIF(:tax_id,''), :active::boolean, NULLIF(:keywords,''))"
    ∷ " RETURNING id" ∷ []

abbrev pub insert_localized_text : List String
insert_localized_text =
    "INSERT INTO t_localizedorgunit (org_unit_id, locale_id, name)"
    ∷ " VALUES (:org_unit_id, :locale_id, :name)" ∷ " RETURNING id" ∷ []

abbrev pub find_unit_text : List String
find_unit_text =
    "SELECT id, COALESCE(parent_id, 0), org_type," ∷ " COALESCE(federal_tax_id, ''), is_active,"
    ∷ " COALESCE(keywords, '')" ∷ " FROM t_orgunit WHERE id = :id" ∷ []

abbrev pub update_root_text : List String
update_root_text =
    "UPDATE t_orgunit SET" ∷ " parent_id = NULL," ∷ " org_type = :org_type,"
    ∷ " federal_tax_id = NULLIF(:tax_id,'')," ∷ " is_active = :active::boolean,"
    ∷ " keywords = NULLIF(:keywords,'')" ∷ " WHERE id = :id RETURNING id" ∷ []

abbrev pub update_child_text : List String
update_child_text =
    "UPDATE t_orgunit SET" ∷ " parent_id = :parent_id," ∷ " org_type = :org_type,"
    ∷ " federal_tax_id = NULLIF(:tax_id,'')," ∷ " is_active = :active::boolean,"
    ∷ " keywords = NULLIF(:keywords,'')" ∷ " WHERE id = :id RETURNING id" ∷ []

abbrev pub remove_unit_text : List String
remove_unit_text = "DELETE FROM t_orgunit WHERE id = :id RETURNING id" ∷ []

abbrev pub hierarchy_text : List String
hierarchy_text =
    "SELECT id, COALESCE(parent_id, 0), name, org_type, " ∷ "COALESCE(keywords, ''), depth "
    ∷ "FROM fn_org_hierarchy(:loc)" ∷ []

abbrev pub children_text : List String
children_text =
    "SELECT id, COALESCE(parent_id, 0), org_type, "
    ∷ "COALESCE(federal_tax_id, ''), is_active, COALESCE(keywords, '') "
    ∷ "FROM t_orgunit WHERE parent_id = :pid ORDER BY id" ∷ []

-- What a statement binds for the fields of a unit other than its parent.
unfoldable pub unit_bindings : OrgUnitDto → List Binding → List Binding
unit_bindings o rest =
    ("org_type", text_value o.org_type)
    ∷ ("tax_id", text_value o.federal_tax_id)
    ∷ ("active", flag o.is_active)
    ∷ ("keywords", text_value o.keywords)
    ∷ rest

module _ {ℓ} {W R : Type ℓ} (soci : Soci W R) where
  unfoldable pub unit_of_row : R → Option OrgUnitDto
  unit_of_row r = do
    id ← soci.get_long_long 0 r
    parent_id ← soci.get_long_long 1 r
    org_type ← soci.get_string 2 r
    federal_tax_id ← soci.get_string 3 r
    is_active ← soci.get_int 4 r
    keywords ← soci.get_string 5 r
    some (record {
      id = id;
      parent_id = parent_id;
      org_type = org_type;
      federal_tax_id = federal_tax_id;
      is_active = to_bool is_active;
      keywords = keywords;
    })

  unfoldable pub hierarchy_of_row : R → Option OrgHierarchyDto
  hierarchy_of_row r = do
    id ← soci.get_long_long 0 r
    parent_id ← soci.get_long_long 1 r
    name ← soci.get_string 2 r
    org_type ← soci.get_string 3 r
    keywords ← soci.get_string 4 r
    depth ← soci.get_int 5 r
    some (record {
      id = id;
      parent_id = parent_id;
      name = name;
      org_type = org_type;
      keywords = keywords;
      depth = depth;
    })

  unfoldable pub insert_unit : OrgUnitDto → List ℕ → W → Reply ℕ W
  unfolding in_session send first_number unit_bindings
  insert_unit o username = in_session soci username [] (
      if o.parent_id == 0
      then send soci (literals insert_root_text) (unit_bindings o []) (first_number soci)
      else send soci (literals insert_child_text)
          (("parent_id", long_value o.parent_id) ∷ unit_bindings o []) (first_number soci))

  unfoldable pub insert_localized : LocalizedOrgUnitDto → List ℕ → W → Reply ℕ W
  unfolding in_session send first_number widen
  insert_localized loc username = in_session soci username [] (
      send soci (literals insert_localized_text)
        (("org_unit_id", long_value loc.org_unit_id)
          ∷ ("locale_id", int_value (widen loc.locale_id))
          ∷ ("name", text_value loc.name)
          ∷ [])
        (first_number soci))

  unfoldable pub find_unit : ℕ → W → Reply (Option OrgUnitDto) W
  unfolding in_session send first_row unit_of_row
  find_unit id =
      in_session soci [] []
        (send soci (literals find_unit_text) (("id", long_value id) ∷ []) (first_row unit_of_row))

  unfoldable pub update_unit : OrgUnitDto → List ℕ → W → Reply Bool W
  unfolding in_session send got_data unit_bindings
  update_unit o username = in_session soci username [] (
      if o.parent_id == 0
      then send soci (literals update_root_text) (unit_bindings o (("id", long_value o.id) ∷ []))
          (got_data soci)
      else send soci (literals update_child_text)
          (("parent_id", long_value o.parent_id) ∷ unit_bindings o (("id", long_value o.id) ∷ []))
          (got_data soci))

  unfoldable pub remove_unit : ℕ → List ℕ → W → Reply Bool W
  unfolding in_session send got_data
  remove_unit id username =
      in_session soci username []
        (send soci (literals remove_unit_text) (("id", long_value id) ∷ []) (got_data soci))

  unfoldable pub hierarchy : List ℕ → W → Reply (List OrgHierarchyDto) W
  unfolding in_session send each_row hierarchy_of_row
  hierarchy locale = in_session soci [] locale (
      send soci (literals hierarchy_text) (("loc", text_value locale) ∷ [])
        (each_row hierarchy_of_row))

  unfoldable pub find_children : ℕ → W → Reply (List OrgUnitDto) W
  unfolding in_session send each_row unit_of_row
  find_children parent_id = in_session soci [] [] (
      send soci (literals children_text) (("pid", long_value parent_id) ∷ [])
        (each_row unit_of_row))
