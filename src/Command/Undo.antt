-- ===== src/Command/Undo.antt =====
-- `undo` after `run`: of a tree that ran to its end, and of one in which a command threw.
pub mod Rollback
use mathlib.Core.Option.{some-injective}
use pensar.Base.{
  ℕ, zero, suc, Bool, true, false, ◌≡◌, refl, ap, ◌∙◌, sym, Option, none, some, List, [], ◌∷◌, ◌++◌,
  arith,
}
use pensar.TriBool.{TriBool, to_bool}
use pensar.Command.{
  Command, leaf, composite, Slots, end, null_slot, freed_slot, slot, Effect, returns, raises,
  faults, Effects, mark, and_then, slots_then, run, run_slots, undo, undo_slots, ok,
}
use pensar.Command.Run.{
  kinds, kinds_slots, append?-eq-some, run_kinds, and_then_assoc, run-run_kinds,
}

module _ {ℓ} {W : Type ℓ} (fx : Effects W) where
  -- The leaves' `_undo`, in the order in which they were run.
  unfoldable pub undo_kinds : List ℕ → W → Effect W
  undo_kinds [] w = returns w
  undo_kinds (k ∷ ks) w = and_then (fx.do_undo k w) (undo_kinds ks)

  undo_kinds-append :
      (xs ys : List ℕ) (w : W)
      → undo_kinds (xs ++ ys) w ≡ and_then (undo_kinds xs w) (undo_kinds ys)
  unfolding undo_kinds
  undo_kinds-append [] ys w = refl
  undo_kinds-append (x ∷ xs) ys w =
      ap (and_then (fx.do_undo x w)) (λ i v. undo_kinds-append xs ys v i)
      ∙ sym (and_then_assoc fx (fx.do_undo x w) (undo_kinds xs) (undo_kinds ys))

  and_then_returns : (e : Effect W) → and_then e returns ≡ e
  and_then_returns (returns w) = refl
  and_then_returns (raises w) = refl
  and_then_returns faults = refl

  -- A loop that returned: its first call did, and the rest did.
  slots_then-eq-returns :
      (e : Effect W) (rest : Slots) (f : W → Effect W × Slots) {w : W}
      → (slots_then e rest f).0 ≡ returns w
      → (v : W) × (e ≡ returns v) × (slots_then e rest f ≡ f v) × ((f v).0 ≡ returns w)
  slots_then-eq-returns (returns v) rest f h = (v, refl, refl, h)
  slots_then-eq-returns (raises v) rest f h = cc
  slots_then-eq-returns faults rest f h = cc

  mutual
    unfolding run undo kinds undo_kinds

    undo-eq :
        (c : Command) (ks : List ℕ) (w w' v : W)
        → kinds c ≡ some ks
        → (run fx c w).0 ≡ returns w'
        → undo fx (run fx c w).1 v ≡ undo_kinds ks v
    undo-eq (leaf id mok kind) ks w w' v e h = rw h (
        sym (and_then_returns (fx.do_undo kind v))
        ∙ ap (λ k. undo_kinds k v) (some-injective _ _ e))
    undo-eq (composite id mok mindex slots) ks w w' v e h =
        rw h (undo_slots-eq slots mindex ks w w' v e h)

    undo_slots-eq :
        (s : Slots) (n : ℕ) (ks : List ℕ) (w w' v : W)
        → kinds_slots s n ≡ some ks
        → (run_slots fx s n w).0 ≡ returns w'
        → undo_slots fx (run_slots fx s n w).1 n v ≡ undo_kinds ks v
    undo_slots-eq end zero ks w w' v e h = ground arith
    undo_slots-eq (null_slot rest) zero ks w w' v e h = ground arith
    undo_slots-eq (freed_slot rest) zero ks w w' v e h = ground arith
    undo_slots-eq (slot c rest) zero ks w w' v e h = ground arith
    undo_slots-eq end (suc n) ks w w' v e h = cc
    undo_slots-eq (null_slot rest) (suc n) ks w w' v e h = cc
    undo_slots-eq (freed_slot rest) (suc n) ks w w' v e h = cc
    undo_slots-eq (slot c rest) (suc n) ks w w' v e h =
        let (xs, ys, p, q, r) = append?-eq-some (kinds c) (kinds_slots rest n) e in
        let (u, first, both, later) =
          slots_then-eq-returns (run fx c w).0 rest (run_slots fx rest n) h in
        rw both (
          (λ i.
            and_then (undo-eq c xs w u v p first i) (λ t. undo_slots-eq rest n ys u w' t q later i))
          ∙ sym (undo_kinds-append xs ys v)
          ∙ ap (λ k. undo_kinds k v) (sym r))

  -- After a run that returned, `undo` calls the leaves' `_undo` in the order of the run.
  pub undo-undo_kinds :
      (c : Command) (ks : List ℕ) (w w' v : W)
      → kinds c ≡ some ks
      → (run fx c w).0 ≡ returns w'
      → undo fx (run fx c w).1 v ≡ undo_kinds ks v
  undo-undo_kinds c ks w w' v e h = undo-eq c ks w w' v e h
