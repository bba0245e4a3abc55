-- ===== src/Dao/Leases.antt =====
-- The connections that calls of the data access objects borrow, and give back.
use pensar.Base.{
  ℕ, ◌≡◌, refl, ap, ◌∙◌, Bool, List, [], ◌∷◌, none, some, not, ◌&&◌, ◌==◌, Option, arith, sym, ◌||◌,
  ◌⊎◌, inl, inr, if◌then◌else◌, true, false,
}
use pensar.DbConnection.{Session, session, session_at, not_constructed, close_session}
use pensar.DbConnection.Leases.{IsPool, close_session-session, session_fails-leased}
use pensar.Dao.{
  Soci, Reply, returns, raises, Answer, answered, refused, Binding, of_answer, converted, close,
  send, in_session,
}
use pensar.Dao.Calls.{Call, after, perform, run}
use pensar.Dao.Calls.{
  insert_person, find_person, update_person, remove_person, list_persons, find_by_last_name,
  insert_phone, phones_for_person, remove_phone, insert_email, emails_for_person, remove_email,
  insert_address, addresses_for_person, remove_address, insert_role, insert_localized_role,
  find_role_by_id, remove_role, insert_person_org_relation, relations_for_person, assign_role,
  roles_for_person, unassign_role, insert_unit, insert_localized, find_unit, update_unit,
  remove_unit, hierarchy, find_children, insert_rule, rules_for_owner, can_view, remove_rule,
  search_log, search_all, purge, entity_timestamps, search_persons, search_orgunits,
  search_contacts, list_locales, find_by_code, get_default, refresh_materialized_views,
}

abbrev pub world_after {ℓ} : {W R : Type ℓ} → Answer W R → W
world_after (answered rows w) = w
world_after (refused w) = w

or-false : (a : Bool) → (a || false) ≡ a
or-false a = ground arith

or-swap : (a b : Bool) → (a || b) ≡ (b || a)
or-swap a b = ground arith

or_assoc : (a b c : Bool) → ((a || b) || c) ≡ (a || (b || c))
or_assoc a b c = ground arith

session-cases {ℓ} :
    {W : Type ℓ} (s : Session W)
    → ((pos : ℕ) × (w : W) × (s ≡ session_at pos w)) ⊎ ((w : W) × (s ≡ not_constructed w))
session-cases (session_at pos w) = inl (pos, w, refl)
session-cases (not_constructed w) = inr (w, refl)

-- What the documentation of the library says: the pool is one, and a statement with values takes and
-- returns no connection.
pub record IsDatabase {ℓ} {W R : Type ℓ} (soci : Soci W R) (leased : W → ℕ → Bool) : Type ℓ where
  pub pool : IsPool soci.database leased
  pub sent :
      (pos : ℕ) (text : List ℕ) (bindings : List Binding) (w : W) (j : ℕ)
      → leased (world_after (soci.query pos text bindings w)) j ≡ leased w j

-- The user and the locale of the session of a call.
abbrev pub session_of : Call → List ℕ × List ℕ
session_of (insert_person x username) = (username, [])
session_of (update_person x username) = (username, [])
session_of (remove_person x username) = (username, [])
session_of (insert_phone x username) = (username, [])
session_of (remove_phone x username) = (username, [])
session_of (insert_email x username) = (username, [])
session_of (remove_email x username) = (username, [])
session_of (insert_address x username) = (username, [])
session_of (remove_address x username) = (username, [])
session_of (insert_role x username) = (username, [])
session_of (insert_localized_role x username) = (username, [])
session_of (remove_role x username) = (username, [])
session_of (insert_person_org_relation x username) = (username, [])
session_of (assign_role x username) = (username, [])
session_of (unassign_role x username) = (username, [])
session_of (insert_unit x username) = (username, [])
session_of (insert_localized x username) = (username, [])
session_of (update_unit x username) = (username, [])
session_of (remove_unit x username) = (username, [])
session_of (insert_rule x username) = (username, [])
session_of (remove_rule x username) = (username, [])
session_of (hierarchy locale) = ([], locale)
session_of (find_person x) = ([], [])
session_of (list_persons x y) = ([], [])
session_of (find_by_last_name x) = ([], [])
session_of (phones_for_person x) = ([], [])
session_of (emails_for_person x) = ([], [])
session_of (addresses_for_person x) = ([], [])
session_of (find_role_by_id x) = ([], [])
session_of (relations_for_person x) = ([], [])
session_of (roles_for_person x) = ([], [])
session_of (find_unit x) = ([], [])
session_of (find_children x) = ([], [])
session_of (rules_for_owner x) = ([], [])
session_of (can_view x y z) = ([], [])
session_of (search_log x y z u v) = ([], [])
session_of (search_all x y z u v) = ([], [])
session_of (purge x y) = ([], [])
session_of (entity_timestamps x y) = ([], [])
session_of (search_persons x y z) = ([], [])
session_of (search_orgunits x y z) = ([], [])
session_of (search_contacts x y z) = ([], [])
session_of list_locales = ([], [])
session_of (find_by_code x) = ([], [])
session_of get_default = ([], [])
session_of refresh_materialized_views = ([], [])

-- Does the constructor of a session throw, and was it `j` that the session borrowed?
abbrev pub lost_by {ℓ} : {W : Type ℓ} → Session W → ℕ → ℕ → Bool
lost_by (session_at pos w) borrowed j = false
lost_by (not_constructed w) borrowed j = j == borrowed

module _ {ℓ} {W R : Type ℓ} (soci : Soci W R) where
  abbrev pub lost_in : List ℕ × List ℕ → W → ℕ → Bool
  lost_in who w j = lost_by (session soci.database who.0 who.1 w) (soci.database.lease w).0 j

  -- Did one of the calls borrow `j` for a session whose constructor threw?
  abbrev pub lost : (ℕ → ℕ) → List Call → W → ℕ → Bool
  lost to_float [] w j = false
  lost to_float (c ∷ cs) w j =
      lost_in (session_of c) w j || lost to_float cs (perform soci to_float c w) j

module _ {ℓ} {W R : Type ℓ} (soci : Soci W R) (leased : W → ℕ → Bool)
    (d : IsDatabase soci leased) where
  after-close :
      {A : Type 0} (pos : ℕ) (r : Reply A W)
      → after (close soci pos r) ≡ close_session soci.database pos (after r)
  after-close pos (returns a w) = refl
  after-close pos (raises w) = refl

  -- A body that takes and returns no connection.
  record Keeps {A : Type 0} (body : ℕ → W → Reply A W) : Type ℓ where
    kept : (pos : ℕ) (w : W) (j : ℕ) → leased (after (body pos w)) j ≡ leased w j

  after-converted : {A : Type 0} (o : Option A) (w : W) → after (converted o w) ≡ w
  after-converted none w = refl
  after-converted (some a) w = refl

  after-of_answer :
      {A : Type 0} (f : List R → Option A) (s : Answer W R) → after (of_answer f s) ≡ world_after s
  after-of_answer f (answered rows w) = after-converted (f rows) w
  after-of_answer f (refused w) = refl

  send-Keeps :
      {A : Type 0} (text : List ℕ) (bindings : List Binding) (f : List R → Option A)
      → Keeps (send soci text bindings f)
  unfolding send
  send-Keeps text bindings f = record {
    kept = λ pos w j.
        ap (λ v. leased v j) (after-of_answer f (soci.query pos text bindings w))
        ∙ d.sent pos text bindings w j;
  }

  returns-Keeps : {A : Type 0} (a : A) → Keeps (λ pos w. returns a w)
  returns-Keeps a = record { kept = λ pos w j. refl }

  either-Keeps :
      {A : Type 0} (b : Bool) (first second : ℕ → W → Reply A W)
      → Keeps first
      → Keeps second
      → Keeps (if b then first else second)
  either-Keeps true first second h k = h
  either-Keeps false first second h k = k

  in_session-reply :
      {A : Type 0} (username locale : List ℕ) (body : ℕ → W → Reply A W) (w : W) (s : Session W)
      → session soci.database username locale w ≡ s
      → in_session soci username locale body w ≡ elim s [
        | session_at pos w' ↦ close soci pos (body pos w')
        | not_constructed w' ↦ raises w'
      ]
  unfolding in_session
  in_session-reply username locale body w (session_at pos w') e = rw (e, in_session) refl
  in_session-reply username locale body w (not_constructed w') e = rw (e, in_session) refl

  in_session-leased :
      {A : Type 0} (username locale : List ℕ) (body : ℕ → W → Reply A W) (w : W) (j : ℕ)
      → Keeps body
      → leased (after (in_session soci username locale body w)) j
        ≡ (leased w j || lost_in soci (username, locale) w j)
  in_session-leased username locale body w j keeps =
      elim (session-cases (session soci.database username locale w)) [
        | inl (pos, w', e) ↦
            ap (λ r. leased (after r) j)
              (in_session-reply username locale body w (session_at pos w') e)
            ∙ ap (λ v. leased v j) (after-close pos (body pos w'))
            ∙ close_session-session soci.database leased d.pool username locale w w'
                (after (body pos w')) pos e (λ i. keeps.kept pos w' i) j
            ∙ sym (or-false (leased w j))
            ∙ ap (λ s. leased w j || lost_by s (soci.database.lease w).0 j) (sym e)
        | inr (w', e) ↦
            ap (λ r. leased (after r) j)
              (in_session-reply username locale body w (not_constructed w') e)
            ∙ session_fails-leased soci.database leased d.pool username locale w w' e j
            ∙ or-swap (j == (soci.database.lease w).0) (leased w j)
            ∙ ap (λ s. leased w j || lost_by s (soci.database.lease w).0 j) (sym e)
      ]

  perform-leased :
      (to_float : ℕ → ℕ) (c : Call) (w : W) (j : ℕ)
      → leased (perform soci to_float c w) j ≡ (leased w j || lost_in soci (session_of c) w j)
  unfolding perform
  perform-leased to_float (insert_person x y) w j = in_session-leased _ _ _ w j (send-Keeps _ _ _)
  perform-leased to_float (find_person x) w j = in_session-leased _ _ _ w j (send-Keeps _ _ _)
  perform-leased to_float (update_person x y) w j = in_session-leased _ _ _ w j (send-Keeps _ _ _)
  perform-leased to_float (remove_person x y) w j = in_session-leased _ _ _ w j (send-Keeps _ _ _)
  perform-leased to_float (list_persons x y) w j = in_session-leased _ _ _ w j (send-Keeps _ _ _)
  perform-leased to_float (find_by_last_name x) w j = in_session-leased _ _ _ w j (send-Keeps _ _ _)
  perform-leased to_float (insert_phone x y) w j = in_session-leased _ _ _ w j (
      either-Keeps (not (x.person_id == 0) && (x.org_unit_id == 0)) _ _ (send-Keeps _ _ _) (
        either-Keeps ((x.person_id == 0) && not (x.org_unit_id == 0)) _ _ (send-Keeps _ _ _)
          (returns-Keeps 0)))
  perform-leased to_float (phones_for_person x) w j = in_session-leased _ _ _ w j (send-Keeps _ _ _)
  perform-leased to_float (remove_phone x y) w j = in_session-leased _ _ _ w j (send-Keeps _ _ _)
  perform-leased to_float (insert_email x y) w j = in_session-leased _ _ _ w j (
      either-Keeps (not (x.person_id == 0) && (x.org_unit_id == 0)) _ _ (send-Keeps _ _ _) (
        either-Keeps ((x.person_id == 0) && not (x.org_unit_id == 0)) _ _ (send-Keeps _ _ _)
          (returns-Keeps 0)))
  perform-leased to_float (emails_for_person x) w j = in_session-leased _ _ _ w j (send-Keeps _ _ _)
  perform-leased to_float (remove_email x y) w j = in_session-leased _ _ _ w j (send-Keeps _ _ _)
  perform-leased to_float (insert_address x y) w j = in_session-leased _ _ _ w j (
      either-Keeps (not (x.person_id == 0) && (x.org_unit_id == 0)) _ _ (send-Keeps _ _ _) (
        either-Keeps ((x.person_id == 0) && not (x.org_unit_id == 0)) _ _ (send-Keeps _ _ _)
          (returns-Keeps 0)))
  perform-leased to_float (addresses_for_person x) w j =
      in_session-leased _ _ _ w j (send-Keeps _ _ _)
  perform-leased to_float (remove_address x y) w j = in_session-leased _ _ _ w j (send-Keeps _ _ _)
  perform-leased to_float (insert_role x y) w j =
      in_session-leased _ _ _ w j
        (either-Keeps (x.org_unit_id == 0) _ _ (send-Keeps _ _ _) (send-Keeps _ _ _))
  perform-leased to_float (insert_localized_role x y) w j =
      in_session-leased _ _ _ w j (send-Keeps _ _ _)
  perform-leased to_float (find_role_by_id x) w j = in_session-leased _ _ _ w j (send-Keeps _ _ _)
  perform-leased to_float (remove_role x y) w j = in_session-leased _ _ _ w j (send-Keeps _ _ _)
  perform-leased to_float (insert_person_org_relation x y) w j =
      in_session-leased _ _ _ w j (send-Keeps _ _ _)
  perform-leased to_float (relations_for_person x) w j =
      in_session-leased _ _ _ w j (send-Keeps _ _ _)
  perform-leased to_float (assign_role x y) w j = in_session-leased _ _ _ w j (send-Keeps _ _ _)
  perform-leased to_float (roles_for_person x) w j = in_session-leased _ _ _ w j (send-Keeps _ _ _)
  perform-leased to_float (unassign_role x y) w j = in_session-leased _ _ _ w j (send-Keeps _ _ _)
  perform-leased to_float (insert_unit x y) w j =
      in_session-leased _ _ _ w j
        (either-Keeps (x.parent_id == 0) _ _ (send-Keeps _ _ _) (send-Keeps _ _ _))
  perform-leased to_float (insert_localized x y) w j =
      in_session-leased _ _ _ w j (send-Keeps _ _ _)
  perform-leased to_float (find_unit x) w j = in_session-leased _ _ _ w j (send-Keeps _ _ _)
  perform-leased to_float (update_unit x y) w j =
      in_session-leased _ _ _ w j
        (either-Keeps (x.parent_id == 0) _ _ (send-Keeps _ _ _) (send-Keeps _ _ _))
  perform-leased to_float (remove_unit x y) w j = in_session-leased _ _ _ w j (send-Keeps _ _ _)
  perform-leased to_float (hierarchy x) w j = in_session-leased _ _ _ w j (send-Keeps _ _ _)
  perform-leased to_float (find_children x) w j = in_session-leased _ _ _ w j (send-Keeps _ _ _)
  perform-leased to_float (insert_rule x y) w j = in_session-leased _ _ _ w j (
      either-Keeps (not (x.viewer_person_id == 0)) _ _ (send-Keeps _ _ _) (
        either-Keeps (not (x.viewer_role_id == 0)) _ _ (send-Keeps _ _ _) (
          either-Keeps (not (x.viewer_org_unit_id == 0)) _ _ (send-Keeps _ _ _) (returns-Keeps 0))))
  perform-leased to_float (rules_for_owner x) w j = in_session-leased _ _ _ w j (send-Keeps _ _ _)
  perform-leased to_float (can_view x y z) w j = in_session-leased _ _ _ w j (send-Keeps _ _ _)
  perform-leased to_float (remove_rule x y) w j = in_session-leased _ _ _ w j (send-Keeps _ _ _)
  perform-leased to_float (search_log x y z u v) w j =
      in_session-leased _ _ _ w j (send-Keeps _ _ _)
  perform-leased to_float (search_all x y z u v) w j =
      in_session-leased _ _ _ w j (send-Keeps _ _ _)
  perform-leased to_float (purge x y) w j = in_session-leased _ _ _ w j (send-Keeps _ _ _)
  perform-leased to_float (entity_timestamps x y) w j =
      in_session-leased _ _ _ w j (send-Keeps _ _ _)
  perform-leased to_float (search_persons x y z) w j =
      in_session-leased _ _ _ w j (send-Keeps _ _ _)
  perform-leased to_float (search_orgunits x y z) w j =
      in_session-leased _ _ _ w j (send-Keeps _ _ _)
  perform-leased to_float (search_contacts x y z) w j =
      in_session-leased _ _ _ w j (send-Keeps _ _ _)
  perform-leased to_float list_locales w j = in_session-leased _ _ _ w j (send-Keeps _ _ _)
  perform-leased to_float (find_by_code x) w j = in_session-leased _ _ _ w j (send-Keeps _ _ _)
  perform-leased to_float get_default w j = in_session-leased _ _ _ w j (send-Keeps _ _ _)
  perform-leased to_float refresh_materialized_views w j =
      in_session-leased _ _ _ w j (send-Keeps _ _ (λ rows. some 0))

  -- However many calls of the data access objects there are, and however their statements end, those
  -- of a session's constructor included, a connection of the pool is leased in the end just if it was
  -- at the start or if one of the calls borrowed it for a session whose constructor threw.
  pub run-leased :
      (to_float : ℕ → ℕ) (calls : List Call) (w : W) (j : ℕ)
      → leased (run soci to_float calls w) j ≡ (leased w j || lost soci to_float calls w j)
  unfolding run
  run-leased to_float [] w j = sym (or-false (leased w j))
  run-leased to_float (c ∷ cs) w j =
      run-leased to_float cs (perform soci to_float c w) j
      ∙ ap (λ b. b || lost soci to_float cs (perform soci to_float c w) j)
          (perform-leased to_float c w j)
      ∙ or_assoc (leased w j) (lost_in soci (session_of c) w j)
          (lost soci to_float cs (perform soci to_float c w) j)
