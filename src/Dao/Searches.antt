-- ===== src/Dao/Searches.antt =====
-- contact/data/search_dao.hpp: the searches of `SearchDAO`. How a `double` becomes a `float` is a
-- parameter.
use Prim.Native.String.{String}
use pensar.Base.{ℕ, Option, some, List, [], ◌∷◌}
use pensar.Dao.{
  int_value, text_value, Soci, Reply, literals, ◌>>=◌, send, in_session, each_row, Binding,
}

pub record SearchResultDto : Type 0 where
  pub entity_type : List ℕ
  pub entity_id : ℕ
  pub display_name : List ℕ
  pub keywords : List ℕ
  pub rank : ℕ

pub record PersonSearchResultDto : Type 0 where
  pub id : ℕ
  pub first_name : List ℕ
  pub last_name : List ℕ
  pub keywords : List ℕ
  pub rank : ℕ

pub record OrgSearchResultDto : Type 0 where
  pub id : ℕ
  pub name : List ℕ
  pub org_type : List ℕ
  pub keywords : List ℕ
  pub rank : ℕ

abbrev pub search_persons_text : List String
search_persons_text =
    "SELECT id, first_name, last_name, " ∷ "COALESCE(keywords,''), rank "
    ∷ "FROM fn_search_persons(:q, :lim, :cfg::regconfig)" ∷ []

abbrev pub search_orgunits_text : List String
search_orgunits_text =
    "SELECT id, name, org_type, " ∷ "COALESCE(keywords,''), rank "
    ∷ "FROM fn_search_orgunits(:q, :lim, :cfg::regconfig)" ∷ []

abbrev pub search_contacts_text : List String
search_contacts_text =
    "SELECT entity_type, entity_id, display_name, " ∷ "COALESCE(keywords,''), rank "
    ∷ "FROM fn_search_contacts(:q, :lim, :cfg::regconfig)" ∷ []

unfoldable pub query_bindings : List ℕ → ℕ → List ℕ → List Binding
query_bindings query_text limit ts_config =
    ("q", text_value query_text) ∷ ("lim", int_value limit) ∷ ("cfg", text_value ts_config) ∷ []

module _ {ℓ} {W R : Type ℓ} (soci : Soci W R) (to_float : ℕ → ℕ) where
  unfoldable pub contact_of_row : R → Option SearchResultDto
  contact_of_row r = do
    entity_type ← soci.get_string 0 r
    entity_id ← soci.get_long_long 1 r
    display_name ← soci.get_string 2 r
    keywords ← soci.get_string 3 r
    rank ← soci.get_double 4 r
    some (record {
      entity_type = entity_type;
      entity_id = entity_id;
      display_name = display_name;
      keywords = keywords;
      rank = to_float rank;
    })

  unfoldable pub found_person_of_row : R → Option PersonSearchResultDto
  found_person_of_row r = do
    id ← soci.get_long_long 0 r
    first_name ← soci.get_string 1 r
    last_name ← soci.get_string 2 r
    keywords ← soci.get_string 3 r
    rank ← soci.get_double 4 r
    some (record {
      id = id;
      first_name = first_name;
      last_name = last_name;
      keywords = keywords;
      rank = to_float rank;
    })

  unfoldable pub found_unit_of_row : R → Option OrgSearchResultDto
  found_unit_of_row r = do
    id ← soci.get_long_long 0 r
    name ← soci.get_string 1 r
    org_type ← soci.get_string 2 r
    keywords ← soci.get_string 3 r
    rank ← soci.get_double 4 r
    some (record {
      id = id;
      name = name;
      org_type = org_type;
      keywords = keywords;
      rank = to_float rank;
    })

  unfoldable pub search_persons : List ℕ → ℕ → List ℕ → W → Reply (List PersonSearchResultDto) W
  unfolding in_session send each_row query_bindings found_person_of_row
  search_persons query_text limit ts_config = in_session soci [] [] (
      send soci (literals search_persons_text) (query_bindings query_text limit ts_config)
        (each_row found_person_of_row))

  unfoldable pub search_orgunits : List ℕ → ℕ → List ℕ → W → Reply (List OrgSearchResultDto) W
  unfolding in_session send each_row query_bindings found_unit_of_row
  search_orgunits query_text limit ts_config = in_session soci [] [] (
      send soci (literals search_orgunits_text) (query_bindings query_text limit ts_config)
        (each_row found_unit_of_row))

  unfoldable pub search_contacts : List ℕ → ℕ → List ℕ → W → Reply (List SearchResultDto) W
  unfolding in_session send each_row query_bindings contact_of_row
  search_contacts query_text limit ts_config = in_session soci [] [] (
      send soci (literals search_contacts_text) (query_bindings query_text limit ts_config)
        (each_row contact_of_row))
