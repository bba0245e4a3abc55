-- ===== src/Dao/Calls.antt =====
-- The calls of the data access objects, and what a sequence of them leaves of the world.
use pensar.Base.{ℕ, List, [], ◌∷◌}
use pensar.Dao.{Soci, Reply, returns, raises}
use pensar.Dao.Person
use pensar.Dao.Person.{PersonDto}
use pensar.Dao.Phone
use pensar.Dao.Phone.{PhoneDto}
use pensar.Dao.Email
use pensar.Dao.Email.{EmailDto}
use pensar.Dao.Address
use pensar.Dao.Address.{AddressDto}
use pensar.Dao.Role
use pensar.Dao.Role.{LocalizedRoleDto, PersonOrgRelationDto, PersonRoleDto, RoleDto}
use pensar.Dao.Org
use pensar.Dao.Org.{LocalizedOrgUnitDto, OrgUnitDto}
use pensar.Dao.Visibility
use pensar.Dao.Visibility.{DataVisibilityDto}
use pensar.Dao.Audit
use pensar.Dao.Searches
use pensar.Dao.Locale

-- A method with its arguments.
pub data Call : Type 0 where
  insert_person : PersonDto → List ℕ → Call
  find_person : ℕ → Call
  update_person : PersonDto → List ℕ → Call
  remove_person : ℕ → List ℕ → Call
  list_persons : ℕ → ℕ → Call
  find_by_last_name : List ℕ → Call
  insert_phone : PhoneDto → List ℕ → Call
  phones_for_person : ℕ → Call
  remove_phone : ℕ → List ℕ → Call
  insert_email : EmailDto → List ℕ → Call
  emails_for_person : ℕ → Call
  remove_email : ℕ → List ℕ → Call
  insert_address : AddressDto → List ℕ → Call
  addresses_for_person : ℕ → Call
  remove_address : ℕ → List ℕ → Call
  insert_role : RoleDto → List ℕ → Call
  insert_localized_role : LocalizedRoleDto → List ℕ → Call
  find_role_by_id : ℕ → Call
  remove_role : ℕ → List ℕ → Call
  insert_person_org_relation : PersonOrgRelationDto → List ℕ → Call
  relations_for_person : ℕ → Call
  assign_role : PersonRoleDto → List ℕ → Call
  roles_for_person : ℕ → Call
  unassign_role : ℕ → List ℕ → Call
  insert_unit : OrgUnitDto → List ℕ → Call
  insert_localized : LocalizedOrgUnitDto → List ℕ → Call
  find_unit : ℕ → Call
  update_unit : OrgUnitDto → List ℕ → Call
  remove_unit : ℕ → List ℕ → Call
  hierarchy : List ℕ → Call
  find_children : ℕ → Call
  insert_rule : DataVisibilityDto → List ℕ → Call
  rules_for_owner : ℕ → Call
  can_view : ℕ → ℕ → List ℕ → Call
  remove_rule : ℕ → List ℕ → Call
  search_log : List ℕ → List ℕ → List ℕ → List ℕ → List ℕ → Call
  search_all : List ℕ → List ℕ → List ℕ → List ℕ → ℕ → Call
  purge : List ℕ → List ℕ → Call
  entity_timestamps : List ℕ → ℕ → Call
  search_persons : List ℕ → ℕ → List ℕ → Call
  search_orgunits : List ℕ → ℕ → List ℕ → Call
  search_contacts : List ℕ → ℕ → List ℕ → Call
  list_locales : Call
  find_by_code : List ℕ → Call
  get_default : Call
  refresh_materialized_views : Call

abbrev pub after {ℓ} : {A : Type 0} {W : Type ℓ} → Reply A W → W
after (returns a w) = w
after (raises w) = w

module _ {ℓ} {W R : Type ℓ} (soci : Soci W R) (to_float : ℕ → ℕ) where
  -- The world that a call leaves, whether it returns or throws.
  unfoldable pub perform : Call → W → W
  unfolding Person.insert Person.find_by_id Person.update Person.remove Person.list_all
      Person.find_by_last_name Phone.insert_phone Phone.phones_for_person Phone.remove_phone
      Email.insert_email Email.emails_for_person Email.remove_email Address.insert_address
      Address.addresses_for_person Address.remove_address Role.insert_role
      Role.insert_localized_role Role.find_role_by_id Role.remove_role
      Role.insert_person_org_relation Role.relations_for_person Role.assign_role
      Role.roles_for_person Role.unassign_role Org.insert_unit Org.insert_localized Org.find_unit
      Org.update_unit Org.remove_unit Org.hierarchy Org.find_children Visibility.insert_rule
      Visibility.rules_for_owner Visibility.can_view Visibility.remove_rule Audit.search_log
      Audit.search_all Audit.purge Audit.entity_timestamps Searches.search_persons
      Searches.search_orgunits Searches.search_contacts Locale.list_locales Locale.find_by_code
      Locale.get_default Locale.refresh_materialized_views
  perform (insert_person x y) w = after (Person.insert soci x y w)
  perform (find_person x) w = after (Person.find_by_id soci x w)
  perform (update_person x y) w = after (Person.update soci x y w)
  perform (remove_person x y) w = after (Person.remove soci x y w)
  perform (list_persons x y) w = after (Person.list_all soci x y w)
  perform (find_by_last_name x) w = after (Person.find_by_last_name soci x w)
  perform (insert_phone x y) w = after (Phone.insert_phone soci x y w)
  perform (phones_for_person x) w = after (Phone.phones_for_person soci x w)
  perform (remove_phone x y) w = after (Phone.remove_phone soci x y w)
  perform (insert_email x y) w = after (Email.insert_email soci x y w)
  perform (emails_for_person x) w = after (Email.emails_for_person soci x w)
  perform (remove_email x y) w = after (Email.remove_email soci x y w)
  perform (insert_address x y) w = after (Address.insert_address soci x y w)
  perform (addresses_for_person x) w = after (Address.addresses_for_person soci x w)
  perform (remove_address x y) w = after (Address.remove_address soci x y w)
  perform (insert_role x y) w = after (Role.insert_role soci x y w)
  perform (insert_localized_role x y) w = after (Role.insert_localized_role soci x y w)
  perform (find_role_by_id x) w = after (Role.find_role_by_id soci x w)
  perform (remove_role x y) w = after (Role.remove_role soci x y w)
  perform (insert_person_org_relation x y) w = after (Role.insert_person_org_relation soci x y w)
  perform (relations_for_person x) w = after (Role.relations_for_person soci x w)
  perform (assign_role x y) w = after (Role.assign_role soci x y w)
  perform (roles_for_person x) w = after (Role.roles_for_person soci x w)
  perform (unassign_role x y) w = after (Role.unassign_role soci x y w)
  perform (insert_unit x y) w = after (Org.insert_unit soci x y w)
  perform (insert_localized x y) w = after (Org.insert_localized soci x y w)
  perform (find_unit x) w = after (Org.find_unit soci x w)
  perform (update_unit x y) w = after (Org.update_unit soci x y w)
  perform (remove_unit x y) w = after (Org.remove_unit soci x y w)
  perform (hierarchy x) w = after (Org.hierarchy soci x w)
  perform (find_children x) w = after (Org.find_children soci x w)
  perform (insert_rule x y) w = after (Visibility.insert_rule soci x y w)
  perform (rules_for_owner x) w = after (Visibility.rules_for_owner soci x w)
  perform (can_view x y z) w = after (Visibility.can_view soci x y z w)
  perform (remove_rule x y) w = after (Visibility.remove_rule soci x y w)
  perform (search_log x y z u v) w = after (Audit.search_log soci x y z u v w)
  perform (search_all x y z u v) w = after (Audit.search_all soci x y z u v w)
  perform (purge x y) w = after (Audit.purge soci x y w)
  perform (entity_timestamps x y) w = after (Audit.entity_timestamps soci x y w)
  perform (search_persons x y z) w = after (Searches.search_persons soci to_float x y z w)
  perform (search_orgunits x y z) w = after (Searches.search_orgunits soci to_float x y z w)
  perform (search_contacts x y z) w = after (Searches.search_contacts soci to_float x y z w)
  perform list_locales w = after (Locale.list_locales soci w)
  perform (find_by_code x) w = after (Locale.find_by_code soci x w)
  perform get_default w = after (Locale.get_default soci w)
  perform refresh_materialized_views w = after (Locale.refresh_materialized_views soci w)

  unfoldable pub run : List Call → W → W
  unfolding perform
  run [] w = w
  run (c ∷ cs) w = run cs (perform c w)
