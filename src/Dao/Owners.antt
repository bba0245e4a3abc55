-- ===== src/Dao/Owners.antt =====
-- What the viewers of a rule decide.
use pensar.Base.{
  ℕ, ◌≡◌, refl, sym, ap, ◌∙◌, ◌⊎◌, true, false, List, [], ◌==◌, if◌then◌else◌, Bool-cases, inl, inr,
}
use pensar.Dao.{Soci, in_session, send, literals, first_number}
use pensar.Dao.Visibility.{
  DataVisibilityDto, insert_rule, rule_bindings, insert_person_viewer_text, insert_role_viewer_text,
}

-- A rule with no viewer but its first: a person before a role, and a role before a unit.
unfoldable pub first_viewer : DataVisibilityDto → DataVisibilityDto
first_viewer v =
    if v.viewer_person_id == 0
    then if v.viewer_role_id == 0 then v else record v { viewer_org_unit_id = 0 }
    else record v { viewer_role_id = 0; viewer_org_unit_id = 0 }

module _ {ℓ} {W R : Type ℓ} (soci : Soci W R) where
  first_viewer-cases :
      (v : DataVisibilityDto)
      → ((v.viewer_person_id == 0) ≡ false)
          × (first_viewer v ≡ record v { viewer_role_id = 0; viewer_org_unit_id = 0 })
        ⊎ (((v.viewer_person_id == 0) ≡ true)
              × ((v.viewer_role_id == 0) ≡ false)
              × (first_viewer v ≡ record v { viewer_org_unit_id = 0 })
            ⊎ (first_viewer v ≡ v))
  unfolding first_viewer
  first_viewer-cases v = elim (Bool-cases (v.viewer_person_id == 0)) [
    | inl no_person ↦ elim (Bool-cases (v.viewer_role_id == 0)) [
      | inl no_role ↦ inr (inr (rw no_person (rw no_role refl)))
      | inr role ↦ inr (inl (no_person, role, rw no_person (rw role refl)))
    ]
    | inr person ↦ inl (person, rw person refl)
  ]

  insert_rule-person :
      (v : DataVisibilityDto) (username : List ℕ)
      → (v.viewer_person_id == 0) ≡ false
      → insert_rule soci v username
        ≡ in_session soci username [] (
            send soci
              (literals insert_person_viewer_text)
              (rule_bindings v "vp" v.viewer_person_id)
              (first_number soci))
  unfolding insert_rule
  insert_rule-person v username person = rw person refl

  insert_rule-role :
      (v : DataVisibilityDto) (username : List ℕ)
      → (v.viewer_person_id == 0) ≡ true
      → (v.viewer_role_id == 0) ≡ false
      → insert_rule soci v username
        ≡ in_session soci username [] (
            send soci
              (literals insert_role_viewer_text)
              (rule_bindings v "vr" v.viewer_role_id)
              (first_number soci))
  unfolding insert_rule
  insert_rule-role v username no_person role = rw no_person (rw role refl)

  -- A rule with several viewers is not refused: its insertion is that of the rule with the first of
  -- them only.
  pub insert_rule-first_viewer :
      (v : DataVisibilityDto) (username : List ℕ)
      → insert_rule soci v username ≡ insert_rule soci (first_viewer v) username
  unfolding rule_bindings
  insert_rule-first_viewer v username = elim (first_viewer-cases v) [
    | inl (person, e) ↦
        insert_rule-person v username person
        ∙ sym (
            insert_rule-person (record v { viewer_role_id = 0; viewer_org_unit_id = 0 }) username
              person)
        ∙ ap (λ x. insert_rule soci x username) (sym e)
    | inr (inl (no_person, role, e)) ↦
        insert_rule-role v username no_person role
        ∙ sym (insert_rule-role (record v { viewer_org_unit_id = 0 }) username no_person role)
        ∙ ap (λ x. insert_rule soci x username) (sym e)
    | inr (inr e) ↦ ap (λ x. insert_rule soci x username) (sym e)
  ]
