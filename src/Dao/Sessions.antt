-- ===== src/Dao/Sessions.antt =====
-- What a session leaves alone: a view of the world that no lease, no return and no statement of the
-- session itself changes.
use pensar.Base.{ℕ, ◌≡◌, refl, sym, ap, ◌∙◌, List, [], ◌++◌, is_empty, Bool-cases, inl, inr}
use pensar.DbConnection.{
  Step, runs, fails, world, step_then, of_step, quote_literal, set_variable, set_user, reset_user,
  reset_locale, session, session_at, close_session,
}
use pensar.Dao.{Soci, Reply, close, in_session}

-- A lease, a return, and the statements that set and reset a variable leave the view as it is, even
-- if they fail.
pub record IsNeutral {ℓ κ} {W R : Type ℓ} {V : Type κ} (soci : Soci W R) (view : W → V)
    : Type (ℓ ⊔ κ) where
  pub leased : (w : W) → view (soci.database.lease w).1 ≡ view w
  pub returned : (pos : ℕ) (w : W) → view (soci.database.give_back pos w) ≡ view w
  pub user_set :
      (pos : ℕ) (user : List ℕ) (w : W)
      → view (world (soci.database.execute pos (set_user ++ quote_literal user) w)) ≡ view w
  pub user_reset :
      (pos : ℕ) (w : W) → view (world (soci.database.execute pos reset_user w)) ≡ view w
  pub locale_reset :
      (pos : ℕ) (w : W) → view (world (soci.database.execute pos reset_locale w)) ≡ view w

module _ {ℓ κ} {W R : Type ℓ} {V : Type κ} (soci : Soci W R) (view : W → V)
    (n : IsNeutral soci view) where
  set_user-view :
      (pos : ℕ) (user : List ℕ) (w : W)
      → view (world (set_variable soci.database pos set_user user w)) ≡ view w
  unfolding set_variable
  set_user-view pos user w = elim (Bool-cases (is_empty user)) [
    | inl empty ↦ rw empty refl
    | inr some_text ↦ rw some_text (n.user_set pos user w)
  ]

  made_at :
      (pos pos' : ℕ) (s : Step W) (w' : W)
      → of_step pos (step_then s (λ v. runs v)) ≡ session_at pos' w'
      → world s ≡ w'
  made_at pos pos' (runs w) w' e = cc
  made_at pos pos' (fails w) w' e = cc

  -- A session without a locale that is constructed starts with the view as it is.
  pub session-view :
      (username : List ℕ) (w w' : W) (pos : ℕ)
      → session soci.database username [] w ≡ session_at pos w'
      → view w' ≡ view w
  unfolding session set_variable
  session-view username w w' pos e =
      ap view (
        sym (
          made_at (soci.database.lease w).0 pos
            (set_variable soci.database (soci.database.lease w).0 set_user username
              (soci.database.lease w).1)
            w' e))
      ∙ set_user-view (soci.database.lease w).0 username (soci.database.lease w).1
      ∙ n.leased w

  -- The body of a method runs in it.
  pub in_session-at :
      {A : Type 0} (username : List ℕ) (body : ℕ → W → Reply A W) (w w' : W) (pos : ℕ)
      → session soci.database username [] w ≡ session_at pos w'
      → in_session soci username [] body w ≡ close soci pos (body pos w')
  unfolding in_session
  in_session-at username body w w' pos e = rw (e, in_session) refl

  -- Without a user and a locale, the constructor sends no statement.
  pub session-silent :
      (w : W)
      → session soci.database [] [] w
        ≡ session_at (soci.database.lease w).0 (soci.database.lease w).1
  unfolding session set_variable
  session-silent w = refl

  step_then-view :
      (s : Step W) (f : W → Step W)
      → ((w : W) → view (world (f w)) ≡ view w)
      → view (world (step_then s f)) ≡ view (world s)
  step_then-view (runs w) f h = h w
  step_then-view (fails w) f h = refl

  pub close_session-view : (pos : ℕ) (w : W) → view (close_session soci.database pos w) ≡ view w
  unfolding close_session
  close_session-view pos w =
      n.returned pos (
        world (
          step_then (soci.database.execute pos reset_user w)
            (soci.database.execute pos reset_locale)))
      ∙ step_then-view (soci.database.execute pos reset_user w)
          (soci.database.execute pos reset_locale) (n.locale_reset pos)
      ∙ n.user_reset pos w
