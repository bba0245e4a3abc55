-- ===== src/Dao/Visibility.antt =====
-- contact/data/visibility_dao.hpp: who may see the data of a person, and `VisibilityDAO`.
use Prim.Native.String.{String}
use pensar.Base.{
  ℕ, Bool, false, not, Option, some, List, [], ◌∷◌, ◌==◌, if◌then◌else◌, ltb, ◌&&◌, ◌^◌,
}
use pensar.Dao.{
  long_value, text_value, Soci, Reply, returns, literals, ◌>>=◌, send, in_session, first_number,
  got_data, each_row, Binding, flag, to_bool,
}

pub record DataVisibilityDto : Type 0 where
  pub id : ℕ
  pub owner_person_id : ℕ
  pub data_category : List ℕ
  pub viewer_person_id : ℕ
  pub viewer_role_id : ℕ
  pub viewer_org_unit_id : ℕ
  pub can_view : Bool
  pub can_edit : Bool

abbrev pub insert_person_viewer_text : List String
insert_person_viewer_text =
    "INSERT INTO t_datavisibility" ∷ " (owner_person_id, data_category, viewer_person_id,"
    ∷ "  viewer_role_id, viewer_org_unit_id, can_view, can_edit)"
    ∷ " VALUES (:owner, :cat, :vp, NULL, NULL, :cv::boolean, :ce::boolean)" ∷ " RETURNING id" ∷ []

abbrev pub insert_role_viewer_text : List String
insert_role_viewer_text =
    "INSERT INTO t_datavisibility" ∷ " (owner_person_id, data_category, viewer_person_id,"
    ∷ "  viewer_role_id, viewer_org_unit_id, can_view, can_edit)"
    ∷ " VALUES (:owner, :cat, NULL, :vr, NULL, :cv::boolean, :ce::boolean)" ∷ " RETURNING id" ∷ []

abbrev pub insert_org_viewer_text : List String
insert_org_viewer_text =
    "INSERT INTO t_datavisibility" ∷ " (owner_person_id, data_category, viewer_person_id,"
    ∷ "  viewer_role_id, viewer_org_unit_id, can_view, can_edit)"
    ∷ " VALUES (:owner, :cat, NULL, NULL, :vo, :cv::boolean, :ce::boolean)" ∷ " RETURNING id" ∷ []

abbrev pub rules_text : List String
rules_text =
    "SELECT id, owner_person_id, data_category, "
    ∷ "COALESCE(viewer_person_id,0), COALESCE(viewer_role_id,0), "
    ∷ "COALESCE(viewer_org_unit_id,0), can_view, can_edit "
    ∷ "FROM t_datavisibility WHERE owner_person_id = :oid ORDER BY id" ∷ []

abbrev pub can_view_text : List String
can_view_text =
    "SELECT COUNT(*) FROM t_datavisibility" ∷ " WHERE owner_person_id  = :oid"
    ∷ "   AND viewer_person_id = :vid" ∷ "   AND (data_category   = :cat OR data_category = 'All')"
    ∷ "   AND can_view = TRUE" ∷ []

abbrev pub remove_rule_text : List String
remove_rule_text = "DELETE FROM t_datavisibility WHERE id = :id RETURNING id" ∷ []

-- What each statement of an insertion binds: the viewer has a name of its own.
unfoldable pub rule_bindings : DataVisibilityDto → String → ℕ → List Binding
rule_bindings v name viewer =
    ("owner", long_value v.owner_person_id)
    ∷ ("cat", text_value v.data_category)
    ∷ (name, long_value viewer)
    ∷ ("cv", flag v.can_view)
    ∷ ("ce", flag v.can_edit)
    ∷ []

module _ {ℓ} {W R : Type ℓ} (soci : Soci W R) where
  unfoldable pub rule_of_row : R → Option DataVisibilityDto
  rule_of_row r = do
    id ← soci.get_long_long 0 r
    owner_person_id ← soci.get_long_long 1 r
    data_category ← soci.get_string 2 r
    viewer_person_id ← soci.get_long_long 3 r
    viewer_role_id ← soci.get_long_long 4 r
    viewer_org_unit_id ← soci.get_long_long 5 r
    can_view ← soci.get_int 6 r
    can_edit ← soci.get_int 7 r
    some (record {
      id = id;
      owner_person_id = owner_person_id;
      data_category = data_category;
      viewer_person_id = viewer_person_id;
      viewer_role_id = viewer_role_id;
      viewer_org_unit_id = viewer_org_unit_id;
      can_view = to_bool can_view;
      can_edit = to_bool can_edit;
    })

  -- `soci::into` of a count that is 0 before, and `count > 0` of an `int`.
  unfoldable pub some_count : List R → Option Bool
  some_count [] = some false
  some_count (r ∷ rs) = soci.get_int 0 r >>= λ count. some (ltb 0 count && ltb count (2 ^ 31))

  unfoldable pub insert_rule : DataVisibilityDto → List ℕ → W → Reply ℕ W
  unfolding in_session send first_number rule_bindings
  insert_rule v username = in_session soci username [] (
      if not (v.viewer_person_id == 0)
      then send soci (literals insert_person_viewer_text) (rule_bindings v "vp" v.viewer_person_id)
          (first_number soci)
      else if not (v.viewer_role_id == 0)
      then send soci (literals insert_role_viewer_text) (rule_bindings v "vr" v.viewer_role_id)
          (first_number soci)
      else if not (v.viewer_org_unit_id == 0)
      then send soci (literals insert_org_viewer_text) (rule_bindings v "vo" v.viewer_org_unit_id)
          (first_number soci)
      else λ pos w. returns 0 w)

  unfoldable pub rules_for_owner : ℕ → W → Reply (List DataVisibilityDto) W
  unfolding in_session send each_row rule_of_row
  rules_for_owner owner_person_id = in_session soci [] [] (
      send soci (literals rules_text) (("oid", long_value owner_person_id) ∷ [])
        (each_row rule_of_row))

  unfoldable pub can_view : ℕ → ℕ → List ℕ → W → Reply Bool W
  unfolding in_session send some_count
  can_view owner_person_id viewer_person_id data_category = in_session soci [] [] (
      send soci (literals can_view_text)
        (("oid", long_value owner_person_id)
          ∷ ("vid", long_value viewer_person_id)
          ∷ ("cat", text_value data_category)
          ∷ [])
        some_count)

  unfoldable pub remove_rule : ℕ → List ℕ → W → Reply Bool W
  unfolding in_session send got_data
  remove_rule id username =
      in_session soci username []
        (send soci (literals remove_rule_text) (("id", long_value id) ∷ []) (got_data soci))
