-- ===== src/Dao/Audit.antt =====
-- contact/data/audit_dao.hpp: the entries of the audit log, and `AuditDAO`. The text of `search` is made
-- of its arguments.
use Prim.Native.String.{String}
use pensar.Base.{codes, ℕ, Option, some, List, [], ◌∷◌, ◌++◌, if◌then◌else◌, is_empty}
use pensar.Dao.{
  long_value, int_value, text_value, Soci, Reply, literals, ◌>>=◌, send, in_session, first_number,
  first_row, each_row,
}

pub record AuditLogDto : Type 0 where
  pub source_table : List ℕ
  pub log_id : ℕ
  pub action : List ℕ
  pub action_by : List ℕ
  pub action_at : List ℕ
  pub old_data : List ℕ
  pub new_data : List ℕ

pub record EntityTimestampDto : Type 0 where
  pub created_at : List ℕ
  pub created_by : List ℕ
  pub updated_at : List ℕ
  pub updated_by : List ℕ

abbrev pub search_text : List String
search_text =
    "SELECT log_id, action, action_by, action_at::text, "
    ∷ "COALESCE(old_data::text,'{}'), COALESCE(new_data::text,'{}') " ∷ "FROM " ∷ []

abbrev pub search_all_text : List String
search_all_text =
    "SELECT source_table, log_id, action, action_by, "
    ∷ "action_at::text, COALESCE(old_data::text,'{}'), " ∷ "COALESCE(new_data::text,'{}') "
    ∷ "FROM fn_search_all_audit_logs(" ∷ "NULLIF(:act,'')::char, NULLIF(:aby,''), "
    ∷ "NULLIF(:fr,'')::timestamptz, NULLIF(:to2,'')::timestamptz, :lim)" ∷ []

abbrev pub purge_text : List String
purge_text = "SELECT fn_purge_audit_log(:tbl, :before::timestamptz)" ∷ []

-- The text is the raw string of the source: a line break and the spaces of the next line.
abbrev pub timestamps_text : List String
timestamps_text =
    "\n            SELECT COALESCE(created_at::text,''),"
    ∷ "\n                   COALESCE(created_by,''),"
    ∷ "\n                   COALESCE(updated_at::text,''),"
    ∷ "\n                   COALESCE(updated_by,'')"
    ∷ "\n              FROM fn_entity_timestamps(:tbl, :eid)" ∷ "\n        " ∷ []

-- A condition is put between a text and the text behind it, if its argument is not empty.
unfoldable pub condition : List ℕ → List ℕ → List ℕ → List ℕ
condition before argument behind = if is_empty argument then [] else before ++ (argument ++ behind)

unfoldable pub where_clause : List ℕ → List ℕ → List ℕ → List ℕ → List ℕ
unfolding condition codes
where_clause action action_by from_time to_time =
    codes "WHERE 1=1"
    ++ (condition (codes " AND action = '") action (codes "'")
        ++ (condition (codes " AND action_by = '") action_by (codes "'")
            ++ (condition (codes " AND action_at >= '") from_time (codes "'::timestamptz")
                ++ condition (codes " AND action_at < '") to_time (codes "'::timestamptz"))))

module _ {ℓ} {W R : Type ℓ} (soci : Soci W R) where
  unfoldable pub entry_of_row : R → Option AuditLogDto
  entry_of_row r = do
    log_id ← soci.get_long_long 0 r
    action ← soci.get_string 1 r
    action_by ← soci.get_string 2 r
    action_at ← soci.get_string 3 r
    old_data ← soci.get_string 4 r
    new_data ← soci.get_string 5 r
    some (record {
      source_table = [];
      log_id = log_id;
      action = action;
      action_by = action_by;
      action_at = action_at;
      old_data = old_data;
      new_data = new_data;
    })

  unfoldable pub sourced_of_row : R → Option AuditLogDto
  sourced_of_row r = do
    source_table ← soci.get_string 0 r
    log_id ← soci.get_long_long 1 r
    action ← soci.get_string 2 r
    action_by ← soci.get_string 3 r
    action_at ← soci.get_string 4 r
    old_data ← soci.get_string 5 r
    new_data ← soci.get_string 6 r
    some (record {
      source_table = source_table;
      log_id = log_id;
      action = action;
      action_by = action_by;
      action_at = action_at;
      old_data = old_data;
      new_data = new_data;
    })

  unfoldable pub timestamps_of_row : R → Option EntityTimestampDto
  timestamps_of_row r = do
    created_at ← soci.get_string 0 r
    created_by ← soci.get_string 1 r
    updated_at ← soci.get_string 2 r
    updated_by ← soci.get_string 3 r
    some (record {
      created_at = created_at;
      created_by = created_by;
      updated_at = updated_at;
      updated_by = updated_by;
    })

  unfoldable pub search_log :
      List ℕ → List ℕ → List ℕ → List ℕ → List ℕ → W → Reply (List AuditLogDto) W
  unfolding in_session send each_row entry_of_row where_clause codes
  search_log log_table action action_by from_time to_time =
      let conditions = where_clause action action_by from_time to_time in
      in_session soci [] [] (
        send soci
          (literals search_text
            ++ (log_table ++ (codes " " ++ (conditions ++ codes " ORDER BY action_at DESC"))))
          [] (each_row entry_of_row))

  unfoldable pub search_all : List ℕ → List ℕ → List ℕ → List ℕ → ℕ → W → Reply (List AuditLogDto) W
  unfolding in_session send each_row sourced_of_row
  search_all action action_by from_time to_time limit = in_session soci [] [] (
      send soci (literals search_all_text)
        (("act", text_value action)
          ∷ ("aby", text_value action_by)
          ∷ ("fr", text_value from_time)
          ∷ ("to2", text_value to_time)
          ∷ ("lim", int_value limit)
          ∷ [])
        (each_row sourced_of_row))

  unfoldable pub purge : List ℕ → List ℕ → W → Reply ℕ W
  unfolding in_session send first_number
  purge log_table before = in_session soci [] [] (
      send soci (literals purge_text)
        (("tbl", text_value log_table) ∷ ("before", text_value before) ∷ []) (first_number soci))

  unfoldable pub entity_timestamps : List ℕ → ℕ → W → Reply (Option EntityTimestampDto) W
  unfolding in_session send first_row timestamps_of_row
  entity_timestamps log_table entity_id = in_session soci [] [] (
      send soci (literals timestamps_text)
        (("tbl", text_value log_table) ∷ ("eid", long_value entity_id) ∷ [])
        (first_row timestamps_of_row))
