-- ===== src/Command/Examples.antt =====
-- Runs of commands, and the theorems about them at concrete trees.
use pensar.Base.{ℕ, ◌+◌, Bool, true, false, not, ◌≡◌, refl, List, [], ◌∷◌, ◌==◌, if◌then◌else◌}
use pensar.TriBool.{TriBool, unknown, tri_true}
use pensar.Command.{
  Command, leaf, composite, Slots, end, null_slot, freed_slot, slot, returns, raises, Effects, run,
  undo, Cloned, cloned,
}
use pensar.Command.Run.{kinds, run_kinds, run-run_kinds}
use pensar.Command.Undo.Rollback.{IsReversible, undo-run, undo-run_raises}

-- Actions that write their kind to a log; kind 9 throws.
abbrev logging : Effects (List ℕ)
logging = record {
  do_run = λ k w. if k == 9 then raises w else returns (k ∷ w);
  do_undo = λ k w. returns ((k + 100) ∷ w);
}

-- Actions that flip a switch.
abbrev switching : Effects Bool
switching = record { do_run = λ k w. returns (not w); do_undo = λ k w. returns (not w) }

not-not : (b : Bool) → not (not b) ≡ b
not-not true = refl
not-not false = refl

switching-IsReversible : IsReversible switching (λ k. not) (λ k. not)
switching-IsReversible = record {
  acts = λ k w. refl;
  backs = λ k w. refl;
  inverse = λ k w. not-not w;
  commute = λ j k w. refl;
}

abbrev two_slots : Slots
two_slots = slot (leaf 4 unknown 1) (slot (leaf 5 unknown 2) end)

abbrev two : Command
two = composite 3 unknown 2 two_slots

abbrev with_failure : Slots
with_failure = slot (leaf 4 unknown 1) (slot (leaf 5 unknown 9) end)

abbrev two_done : Command
two_done = composite 3 tri_true 2 (slot (leaf 4 tri_true 1) (slot (leaf 5 tri_true 2) end))

runs_in_order : run logging two [] ≡ (returns (2 ∷ 1 ∷ []), two_done)
unfolding run
runs_in_order = refl

-- Commands that do not commute are undone in the wrong order: 1 before 2.
undone_in_order : undo logging two_done [] ≡ returns (102 ∷ 101 ∷ [])
unfolding undo
undone_in_order = refl

run-run_kinds_example : (run logging two []).0 ≡ run_kinds logging (1 ∷ 2 ∷ []) []
unfolding kinds
run-run_kinds_example = run-run_kinds logging two (1 ∷ 2 ∷ []) [] refl

undo-run_example :
    (w' : Bool) × ((run switching two true).0 ≡ returns w')
    × (undo switching (run switching two true).1 w' ≡ returns true)
unfolding kinds
undo-run_example =
    undo-run switching (λ k. not) (λ k. not) switching-IsReversible two (1 ∷ 2 ∷ []) true refl

undo-run_raises_example :
    let (e, c') = run logging (composite 3 unknown 2 with_failure) [] in
    (e ≡ raises (1 ∷ [])) × ((v : List ℕ) → undo logging c' v ≡ returns v)
unfolding kinds run_kinds
undo-run_raises_example =
    undo-run_raises logging 3 2 unknown with_failure (1 ∷ []) [] 9 [] (1 ∷ []) (1 ∷ []) refl refl
      refl refl

abbrev nulls : Slots
nulls = null_slot (
    null_slot (
      null_slot
        (null_slot (null_slot (null_slot (null_slot (null_slot (null_slot (null_slot end)))))))))

-- What `clone` leaves of a composite of two: two null slots, and two freed ones.
abbrev copied_slots : Slots
copied_slots = null_slot (
    null_slot (
      freed_slot
        (freed_slot (null_slot (null_slot (null_slot (null_slot (null_slot (null_slot end)))))))))

-- Derived commands that copy themselves.
abbrev copying : ℕ → TriBool → ℕ → Cloned Command
copying id mok kind = cloned (leaf id mok kind)
