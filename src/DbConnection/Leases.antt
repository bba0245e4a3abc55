-- ===== src/DbConnection/Leases.antt =====
-- The leases of the connections: a session gives back what it borrowed.
use pensar.Base.{
  ℕ, ◌≡◌, refl, sym, ap, ◌∙◌, Bool, true, false, not, ◌&&◌, ◌||◌, List, ◌++◌, ◌==◌, arith,
  Bool-cases, inl, inr, is_empty,
}
use pensar.DbConnection.{
  Step, runs, fails, Database, step_then, session_at, not_constructed, of_step, world,
  quote_literal, set_variable, set_user, set_locale, reset_user, reset_locale, session,
  close_session,
}

-- What the documentation of the pool says of its leases: a lease takes a connection that is free,
-- and a statement takes and returns none.
pub record IsPool {ℓ} {W : Type ℓ} (db : Database W) (leased : W → ℕ → Bool) : Type ℓ where
  pub free : (w : W) → leased w (db.lease w).0 ≡ false
  pub taken : (w : W) (j : ℕ) → leased (db.lease w).1 j ≡ ((j == (db.lease w).0) || leased w j)
  pub returned :
      (i : ℕ) (w : W) (j : ℕ) → leased (db.give_back i w) j ≡ (not (j == i) && leased w j)
  pub kept :
      (i : ℕ) (text : List ℕ) (w : W) (j : ℕ) → leased (world (db.execute i text w)) j ≡ leased w j

module _ {ℓ} {W : Type ℓ} (db : Database W) (leased : W → ℕ → Bool) (p : IsPool db leased) where
  step_then-kept :
      (j : ℕ) (s : Step W) (f : W → Step W)
      → ((w : W) → leased (world (f w)) j ≡ leased w j)
      → leased (world (step_then s f)) j ≡ leased (world s) j
  step_then-kept j (runs w) f h = h w
  step_then-kept j (fails w) f h = refl

  set_variable-kept :
      (pos : ℕ) (statement text : List ℕ) (w : W) (j : ℕ)
      → leased (world (set_variable db pos statement text w)) j ≡ leased w j
  unfolding set_variable quote_literal
  set_variable-kept pos statement text w j = elim (Bool-cases (is_empty text)) [
    | inl empty ↦ rw empty refl
    | inr some_text ↦ rw some_text (p.kept pos (statement ++ quote_literal text) w j)
  ]

  of_step-session_at :
      (pos pos' : ℕ) (s : Step W) (w' : W)
      → of_step pos s ≡ session_at pos' w'
      → (pos ≡ pos') × (world s ≡ w')
  of_step-session_at pos pos' (runs w) w' e = (cc, cc)
  of_step-session_at pos pos' (fails w) w' e = (cc, cc)

  of_step-not_constructed :
      (pos : ℕ) (s : Step W) (w' : W) → of_step pos s ≡ not_constructed w' → world s ≡ w'
  of_step-not_constructed pos (runs w) w' e = cc
  of_step-not_constructed pos (fails w) w' e = cc

  -- The two statements of the constructor.
  abbrev set_both : List ℕ → List ℕ → W → Step W
  set_both username locale w =
      step_then (set_variable db (db.lease w).0 set_user username (db.lease w).1)
        (set_variable db (db.lease w).0 set_locale locale)

  session-kept :
      (username locale : List ℕ) (w : W) (j : ℕ)
      → leased (world (set_both username locale w)) j ≡ leased (db.lease w).1 j
  session-kept username locale w j =
      step_then-kept j (set_variable db (db.lease w).0 set_user username (db.lease w).1)
        (set_variable db (db.lease w).0 set_locale locale)
        (λ v. set_variable-kept (db.lease w).0 set_locale locale v j)
      ∙ set_variable-kept (db.lease w).0 set_user username (db.lease w).1 j

  itself : (i : ℕ) (b : Bool) → ((i == i) || b) ≡ true
  itself i b = ground arith

  close_session-kept :
      (pos : ℕ) (w : W) (j : ℕ) → leased (close_session db pos w) j ≡ (not (j == pos) && leased w j)
  unfolding close_session
  close_session-kept pos w j =
      p.returned pos (world (step_then (db.execute pos reset_user w) (db.execute pos reset_locale)))
        j
      ∙ ap (λ b. not (j == pos) && b)
          (step_then-kept j (db.execute pos reset_user w) (db.execute pos reset_locale)
              (λ v. p.kept pos reset_locale v j)
            ∙ p.kept pos reset_user w j)

  given_back :
      (pos j : ℕ) (old : ℕ → Bool)
      → old pos ≡ false
      → (not (j == pos) && ((j == pos) || old j)) ≡ old j
  given_back pos j old free = elim (Bool-cases (j == pos)) [
    | inl same ↦ rw same (sym free ∙ ap old (ground arith))
    | inr other ↦ rw other refl
  ]

  -- Once a session is constructed, and used without a lease or a return of its own, its destructor
  -- leaves each connection leased just if it was before, even if a statement of it fails.
  pub close_session-session :
      (username locale : List ℕ) (w w' w'' : W) (pos : ℕ)
      → session db username locale w ≡ session_at pos w'
      → ((j : ℕ) → leased w'' j ≡ leased w' j)
      → (j : ℕ) → leased (close_session db pos w'') j ≡ leased w j
  unfolding session
  close_session-session username locale w w' w'' pos e same j =
      let made = of_step-session_at (db.lease w).0 pos (set_both username locale w) w' e in
      close_session-kept pos w'' j
      ∙ ap (λ b. not (j == pos) && b)
          (same j
            ∙ ap (λ v. leased v j) (sym made.1)
            ∙ session-kept username locale w j
            ∙ p.taken w j)
      ∙ ap (λ i. not (j == i) && ((j == (db.lease w).0) || leased w j)) (sym made.0)
      ∙ given_back (db.lease w).0 j (leased w) (p.free w)

  -- If the constructor of a session fails, just the connection that it took is leased beside those
  -- that were.
  pub session_fails-leased :
      (username locale : List ℕ) (w w' : W)
      → session db username locale w ≡ not_constructed w'
      → (j : ℕ) → leased w' j ≡ ((j == (db.lease w).0) || leased w j)
  unfolding session
  session_fails-leased username locale w w' e j =
      ap (λ v. leased v j)
        (sym (of_step-not_constructed (db.lease w).0 (set_both username locale w) w' e))
      ∙ session-kept username locale w j
      ∙ p.taken w j

  -- If the constructor of a session fails, the connection that it took stays leased.
  pub session_fails :
      (username locale : List ℕ) (w w' : W)
      → session db username locale w ≡ not_constructed w'
      → (leased w (db.lease w).0 ≡ false) × (leased w' (db.lease w).0 ≡ true)
  unfolding session
  session_fails username locale w w' e = (
    p.free w,
    ap (λ v. leased v (db.lease w).0)
          (sym (of_step-not_constructed (db.lease w).0 (set_both username locale w) w' e))
        ∙ session-kept username locale w (db.lease w).0
        ∙ p.taken w (db.lease w).0
        ∙ itself (db.lease w).0 (leased w (db.lease w).0),
  )
