-- ===== src/Command.antt =====
-- cpp/src/command.hpp: `Command`, `CompositeCommand` and their `run`, `undo`, `add` and `clone`.
-- A derived class is a number; what its `_run` and `_undo` do to the world is a parameter. A slot
-- of the fixed array of a composite holds a null pointer, a command, or a pointer to a freed one.
pub mod Run
pub mod Undo
pub mod Clone
pub mod Add
pub mod Stream
pub mod Equality
pub mod Lifecycle
mod Examples
use pensar.Base.{ℕ, zero, suc, ◌+◌, leb, if◌then◌else◌}
use pensar.Base.Outcome
use pensar.Base.Outcome.{Outcome, done, throws, logged_error}
use pensar.TriBool.{TriBool, unknown, tri_true, to_bool}

abbrev pub max_commands : ℕ
max_commands = 10

-- `leaf` has its id, `mok` and class; `composite` its id, `mok`, `mindex` and `mcommands`.
mutual
  pub data Command : Type 0 where
    leaf : ℕ → TriBool → ℕ → Command
    composite : ℕ → TriBool → ℕ → Slots → Command

  pub data Slots : Type 0 where
    end : Slots
    null_slot : Slots → Slots
    freed_slot : Slots → Slots
    slot : Command → Slots → Slots

-- How a call ends: it returns or throws, in a world, or it reads through a bad pointer.
pub data Effect {ℓ} (W : Type ℓ) : Type ℓ where
  returns raises : W → Effect W
  faults : Effect W

-- `_run` and `_undo` of the derived classes.
pub record Effects {ℓ} (W : Type ℓ) : Type ℓ where
  pub do_run : ℕ → W → Effect W
  pub do_undo : ℕ → W → Effect W

pub ok : Command → TriBool
ok (leaf id mok kind) = mok
ok (composite id mok mindex slots) = mok

module _ {ℓ} {W : Type ℓ} where
  -- `mdata.mok = true` is reached only if `_run` returns.
  abbrev pub mark : Effect W → TriBool → TriBool
  mark (returns w) mok = tri_true
  mark _ mok = mok

  -- The next call of a loop is made only if this one returned.
  abbrev pub and_then : Effect W → (W → Effect W) → Effect W
  and_then (returns w) f = f w
  and_then (raises w) f = raises w
  and_then faults f = faults

  -- What the rest of the loop leaves of its slots.
  abbrev pub slots_then : Effect W → Slots → (W → Effect W × Slots) → Effect W × Slots
  slots_then (returns w) rest f = f w
  slots_then (raises w) rest f = (raises w, rest)
  slots_then faults rest f = (faults, rest)

module _ {ℓ} {W : Type ℓ} (fx : Effects W) where
  mutual
    pub run : Command → W → Effect W × Command
    run (leaf id mok kind) w = let e = fx.do_run kind w in (e, leaf id (mark e mok) kind)
    run (composite id mok mindex slots) w =
        let (e, slots') = run_slots slots mindex w in (e, composite id (mark e mok) mindex slots')

    -- The loop of `CompositeCommand::_run`, over the slots and the calls left to make.
    pub run_slots : Slots → ℕ → W → Effect W × Slots
    run_slots end zero w = (returns w, end)
    run_slots (null_slot rest) zero w = (returns w, null_slot rest)
    run_slots (freed_slot rest) zero w = (returns w, freed_slot rest)
    run_slots (slot c rest) zero w = (returns w, slot c rest)
    run_slots end (suc n) w = (faults, end)
    run_slots (null_slot rest) (suc n) w = (faults, null_slot rest)
    run_slots (freed_slot rest) (suc n) w = (faults, freed_slot rest)
    run_slots (slot c rest) (suc n) w =
        let (e, c') = run c w in
        let (e', rest') = slots_then e rest (run_slots rest n) in (e', slot c' rest')

  mutual
    pub undo : Command → W → Effect W
    undo (leaf id mok kind) w = if to_bool mok then fx.do_undo kind w else returns w
    undo (composite id mok mindex slots) w =
        if to_bool mok then undo_slots slots mindex w else returns w

    -- The loop of `CompositeCommand::_undo`, from the first command to the last.
    pub undo_slots : Slots → ℕ → W → Effect W
    undo_slots end zero w = returns w
    undo_slots (null_slot rest) zero w = returns w
    undo_slots (freed_slot rest) zero w = returns w
    undo_slots (slot c rest) zero w = returns w
    undo_slots end (suc n) w = faults
    undo_slots (null_slot rest) (suc n) w = faults
    undo_slots (freed_slot rest) (suc n) w = faults
    undo_slots (slot c rest) (suc n) w = and_then (undo c w) (undo_slots rest n)

pub null_slots : ℕ → Slots
null_slots zero = end
null_slots (suc n) = null_slot (null_slots n)

-- A composite as its constructor makes it, with an id.
pub new_composite : ℕ → Command
unfolding null_slots
new_composite id = composite id unknown 0 (null_slots max_commands)

-- `mcommands[i] = …`
pub set_slot : (Slots → Slots) → ℕ → Slots → Slots
set_slot make i end = end
set_slot make zero (null_slot rest) = make rest
set_slot make zero (freed_slot rest) = make rest
set_slot make zero (slot c rest) = make rest
set_slot make (suc i) (null_slot rest) = null_slot (set_slot make i rest)
set_slot make (suc i) (freed_slot rest) = freed_slot (set_slot make i rest)
set_slot make (suc i) (slot c rest) = slot c (set_slot make i rest)

-- `Data::add`, for a pointer of any kind: at the limit it logs and throws.
pub add : (Slots → Slots) → ℕ → Slots → Outcome (ℕ × Slots)
unfolding set_slot
add make mindex slots =
    if leb max_commands mindex
    then throws logged_error
    else done (suc mindex, set_slot make mindex slots)

-- `CompositeCommand::add`; a command that is no composite has no such method.
pub add_command : Command → Command → Outcome Command
unfolding add
add_command cmd (leaf id mok kind) = throws logged_error
add_command cmd (composite id mok mindex slots) =
    Outcome.map_done (λ r. composite id mok r.0 r.1) (add (slot cmd) mindex slots)

-- How `clone` ends: with a copy; by `std::terminate`, since it is `noexcept` and `add` threw; or
-- on a bad pointer.
pub data Cloned {ℓ} (A : Type ℓ) : Type ℓ where
  cloned : A → Cloned A
  terminates bad_pointer : Cloned A

abbrev pub clone_then {ℓ κ} : {A : Type ℓ} {B : Type κ} → Cloned A → (A → Cloned B) → Cloned B
clone_then (cloned a) f = f a
clone_then terminates f = terminates
clone_then bad_pointer f = bad_pointer

abbrev pub of_outcome {ℓ} : {A : Type ℓ} → Outcome A → Cloned A
of_outcome (done a) = cloned a
of_outcome (throws e) = terminates

-- The copy of a composite starts with the old `mindex` and null slots, and each copied command
-- is added behind that; `clone ().get ()` gives a pointer whose only owner is gone when the
-- statement ends, so the slot is left with a freed pointer. What the derived classes' own
-- `clone` returns is a parameter.
module _ (clone_leaf : ℕ → TriBool → ℕ → Cloned Command) where
  mutual
    pub clone : Command → Cloned Command
    clone (leaf id mok kind) = clone_leaf id mok kind
    clone (composite id mok mindex slots) =
        clone_then (clone_slots slots mindex (mindex, null_slots max_commands))
          (λ r. cloned (composite id unknown r.0 r.1))

    pub clone_slots : Slots → ℕ → ℕ × Slots → Cloned (ℕ × Slots)
    clone_slots end zero copy = cloned copy
    clone_slots (null_slot rest) zero copy = cloned copy
    clone_slots (freed_slot rest) zero copy = cloned copy
    clone_slots (slot c rest) zero copy = cloned copy
    clone_slots end (suc n) copy = bad_pointer
    clone_slots (null_slot rest) (suc n) copy = bad_pointer
    clone_slots (freed_slot rest) (suc n) copy = bad_pointer
    clone_slots (slot c rest) (suc n) copy =
        clone_then (clone c)
          (λ _. clone_then (of_outcome (add freed_slot copy.0 copy.1)) (clone_slots rest n))
