-- ===== src/Command/Undo/Rollback.antt =====
-- When `undo` restores the world, and when it does not.
use pensar.Base.{ℕ, false, ◌≡◌, refl, ap, ◌∙◌, some, List, [], ◌∷◌, ◌++◌}
use pensar.TriBool.{TriBool, to_bool}
use pensar.Command.{Command, composite, Slots, returns, raises, Effects, and_then, run, undo}
use pensar.Command.Run.{kinds, run_kinds, run_kinds-append, run-run_kinds}
use pensar.Command.Undo.{undo_kinds, undo-undo_kinds}

-- Every action returns, every undo action takes its own action back, and every undo action commutes
-- with every action, its own included, in all worlds.
pub record IsReversible {ℓ} {W : Type ℓ} (fx : Effects W) (act back : ℕ → W → W) : Type ℓ where
  pub acts : (k : ℕ) (w : W) → fx.do_run k w ≡ returns (act k w)
  pub backs : (k : ℕ) (w : W) → fx.do_undo k w ≡ returns (back k w)
  pub inverse : (k : ℕ) (w : W) → back k (act k w) ≡ w
  pub commute : (j k : ℕ) (w : W) → back j (act k w) ≡ act k (back j w)

module _ {ℓ} {W : Type ℓ} (fx : Effects W) (act back : ℕ → W → W)
    (rev : IsReversible fx act back) where
  act_all : List ℕ → W → W
  act_all [] w = w
  act_all (k ∷ ks) w = act_all ks (act k w)

  run_kinds-act_all : (ks : List ℕ) (w : W) → run_kinds fx ks w ≡ returns (act_all ks w)
  unfolding run_kinds act_all
  run_kinds-act_all [] w = refl
  run_kinds-act_all (k ∷ ks) w = rw (rev.acts k w) (run_kinds-act_all ks (act k w))

  back-act_all : (j : ℕ) (ks : List ℕ) (w : W) → back j (act_all ks w) ≡ act_all ks (back j w)
  unfolding act_all
  back-act_all j [] w = refl
  back-act_all j (k ∷ ks) w = back-act_all j ks (act k w) ∙ ap (act_all ks) (rev.commute j k w)

  undo_kinds-act_all : (ks : List ℕ) (w : W) → undo_kinds fx ks (act_all ks w) ≡ returns w
  unfolding undo_kinds act_all
  undo_kinds-act_all [] w = refl
  undo_kinds-act_all (k ∷ ks) w = rw (rev.backs k (act_all ks (act k w))) (
      ap (undo_kinds fx ks) (back-act_all k ks (act k w) ∙ ap (act_all ks) (rev.inverse k w))
      ∙ undo_kinds-act_all ks w)

  -- If every action returns, and every undo action returns, takes its own action back in every world
  -- and commutes there with every action, its own included, then `run` of a tree whose commands are
  -- all there returns, and `undo` after it restores the world that it ran in.
  pub undo-run :
      (c : Command) (ks : List ℕ) (w : W)
      → kinds c ≡ some ks
      → (w' : W) × ((run fx c w).0 ≡ returns w') × (undo fx (run fx c w).1 w' ≡ returns w)
  undo-run c ks w e = (
    act_all ks w,
    ran,
    undo-undo_kinds fx c ks w (act_all ks w) (act_all ks w) e ran ∙ undo_kinds-act_all ks w,
  )
    where
      ran : (run fx c w).0 ≡ returns (act_all ks w)
      ran = run-run_kinds fx c ks w e ∙ run_kinds-act_all ks w

-- A composite that has not run yet and in which one command throws is not rolled back: the
-- effects of the commands before it stay, and `undo` then does nothing.
pub undo-run_raises {ℓ} :
    {W : Type ℓ} (fx : Effects W) (id mindex : ℕ) (mok : TriBool) (slots : Slots)
    (before after : List ℕ) (k : ℕ) (w w₁ w₂ : W)
    → to_bool mok ≡ false
    → kinds (composite id mok mindex slots) ≡ some (before ++ k ∷ after)
    → run_kinds fx before w ≡ returns w₁
    → fx.do_run k w₁ ≡ raises w₂
    → let (e, c') = run fx (composite id mok mindex slots) w in
      (e ≡ raises w₂) × ((v : W) → undo fx c' v ≡ returns v)
unfolding run undo
undo-run_raises fx id mindex mok slots before after k w w₁ w₂ fresh e h r =
    let raised : (run fx (composite id mok mindex slots) w).0 ≡ raises w₂ =
      run-run_kinds fx (composite id mok mindex slots) (before ++ k ∷ after) w e
      ∙ run_kinds-append fx before (k ∷ after) w
      ∙ stop in
    (raised, λ v. rw (raised, fresh))
  where
    stop : and_then (run_kinds fx before w) (run_kinds fx (k ∷ after)) ≡ raises w₂
    stop = unfold run_kinds in rw (h, r)
