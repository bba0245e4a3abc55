-- ===== src/Dao/Email.antt =====
-- contact/data/contact_dao.hpp: `EmailDTO`, and the part of `ContactDAO` for it.
use Prim.Native.String.{String}
use pensar.Base.{ℕ, Bool, not, ◌&&◌, Option, some, List, [], ◌∷◌, ◌==◌, if◌then◌else◌}
use pensar.Dao.{
  long_value, int_value, text_value, Soci, Reply, returns, literals, ◌>>=◌, send, in_session,
  first_number, got_data, each_row, Binding, widen, narrow, flag, to_bool,
}

pub record EmailDto : Type 0 where
  pub id : ℕ
  pub person_id : ℕ
  pub org_unit_id : ℕ
  pub email : List ℕ
  pub qualifier_id : ℕ
  pub is_preferred : Bool
  pub is_verified : Bool

abbrev pub insert_email_person_text : List String
insert_email_person_text =
    "INSERT INTO t_email"
    ∷ " (person_id, org_unit_id, email, qualifier_id, is_preferred, is_verified)"
    ∷ " VALUES (:pid, NULL, :email, :qid, :pref::boolean, :ver::boolean)" ∷ " RETURNING id" ∷ []

abbrev pub insert_email_org_text : List String
insert_email_org_text =
    "INSERT INTO t_email"
    ∷ " (person_id, org_unit_id, email, qualifier_id, is_preferred, is_verified)"
    ∷ " VALUES (NULL, :oid, :email, :qid, :pref::boolean, :ver::boolean)" ∷ " RETURNING id" ∷ []

abbrev pub emails_text : List String
emails_text =
    "SELECT id, COALESCE(person_id,0), COALESCE(org_unit_id,0), "
    ∷ "email, qualifier_id, is_preferred, is_verified "
    ∷ "FROM t_email WHERE person_id = :pid ORDER BY is_preferred DESC, id" ∷ []

abbrev pub remove_email_text : List String
remove_email_text = "DELETE FROM t_email WHERE id = :id RETURNING id" ∷ []

-- What the two statements of `insert_email` bind, behind the owner.
unfoldable pub email_bindings : EmailDto → List Binding
unfolding widen
email_bindings e =
    ("email", text_value e.email)
    ∷ ("qid", int_value (widen e.qualifier_id))
    ∷ ("pref", flag e.is_preferred)
    ∷ ("ver", flag e.is_verified)
    ∷ []

module _ {ℓ} {W R : Type ℓ} (soci : Soci W R) where
  unfoldable pub email_of_row : R → Option EmailDto
  unfolding narrow
  email_of_row r = do
    id ← soci.get_long_long 0 r
    person_id ← soci.get_long_long 1 r
    org_unit_id ← soci.get_long_long 2 r
    email ← soci.get_string 3 r
    qualifier_id ← soci.get_int 4 r
    is_preferred ← soci.get_int 5 r
    is_verified ← soci.get_int 6 r
    some (record {
      id = id;
      person_id = person_id;
      org_unit_id = org_unit_id;
      email = email;
      qualifier_id = narrow qualifier_id;
      is_preferred = to_bool is_preferred;
      is_verified = to_bool is_verified;
    })

  -- The owner is a person or an organisation; with both or neither there is no statement.
  unfoldable pub insert_email : EmailDto → List ℕ → W → Reply ℕ W
  unfolding in_session send first_number email_bindings
  insert_email e username = in_session soci username [] (
      if not (e.person_id == 0) && (e.org_unit_id == 0)
      then send soci (literals insert_email_person_text)
          (("pid", long_value e.person_id) ∷ email_bindings e) (first_number soci)
      else if (e.person_id == 0) && not (e.org_unit_id == 0)
      then send soci (literals insert_email_org_text)
          (("oid", long_value e.org_unit_id) ∷ email_bindings e) (first_number soci)
      else λ pos w. returns 0 w)

  unfoldable pub emails_for_person : ℕ → W → Reply (List EmailDto) W
  unfolding in_session send each_row email_of_row
  emails_for_person person_id = in_session soci [] [] (
      send soci (literals emails_text) (("pid", long_value person_id) ∷ []) (each_row email_of_row))

  unfoldable pub remove_email : ℕ → List ℕ → W → Reply Bool W
  unfolding in_session send got_data
  remove_email id username =
      in_session soci username []
        (send soci (literals remove_email_text) (("id", long_value id) ∷ []) (got_data soci))
