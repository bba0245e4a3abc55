-- ===== src/Command/Equality.antt =====
-- cpp/src/command.hpp: `equals` of the commands.
use pensar.Base.{
  some, List, ◌∙◌, ℕ, zero, suc, ◌≡◌, refl, ap, Bool, true, false, ◌&&◌, ◌==◌, if◌then◌else◌, arith,
}
use pensar.TriBool.{TriBool}
use pensar.Command.{Command, leaf, composite, Slots, end, null_slot, freed_slot, slot}
use pensar.Command.Run.{kinds, kinds_slots, append?-eq-some}

-- What a comparison gives: a Boolean; a call through a bad pointer; or the comparison of the bytes
-- of a pointer.
pub data Compared : Type 0 where
  says : Bool → Compared
  bad_pointer : Compared
  on_pointers : Compared

-- The loop goes on only if two commands are equal.
abbrev pub equal_then : Compared → Compared → Compared
equal_then (says true) rest = rest
equal_then (says false) rest = says false
equal_then bad_pointer rest = bad_pointer
equal_then on_pointers rest = on_pointers

mutual
  -- A derived class has `Command::equals`: the hash, which is the identifier, and then the data of
  -- `Command`; any command will do for the other one, and the data of a composite begin with its
  -- pointers.
  pub equals : Command → Command → Compared
  equals (leaf id mok kind) (leaf id' mok' kind') = says (id == id' && mok.mvalue == mok'.mvalue)
  equals (leaf id mok kind) (composite id' mok' mindex' slots') =
      if id == id' then on_pointers else says false
  equals (composite id mok mindex slots) (leaf id' mok' kind') = says false
  equals (composite id mok mindex slots) (composite id' mok' mindex' slots') =
      if id' == id then equal_slots slots mindex slots' else says false

  -- The loop of `CompositeCommand::equals` has the count of this composite, and not of the other.
  pub equal_slots : Slots → ℕ → Slots → Compared
  equal_slots end zero other = says true
  equal_slots (null_slot rest) zero other = says true
  equal_slots (freed_slot rest) zero other = says true
  equal_slots (slot c rest) zero other = says true
  equal_slots end (suc n) other = bad_pointer
  equal_slots (null_slot rest) (suc n) other = bad_pointer
  equal_slots (freed_slot rest) (suc n) other = bad_pointer
  equal_slots (slot c rest) (suc n) end = bad_pointer
  equal_slots (slot c rest) (suc n) (null_slot rest') = bad_pointer
  equal_slots (slot c rest) (suc n) (freed_slot rest') = bad_pointer
  equal_slots (slot c rest) (suc n) (slot c' rest') =
      equal_then (equals c c') (equal_slots rest n rest')

same_id : (i : ℕ) → (i == i) ≡ true
same_id i = ground arith

mutual
  unfolding kinds equals

  equals_self : (c : Command) (ks : List ℕ) → kinds c ≡ some ks → equals c c ≡ says true
  equals_self (leaf id mok kind) ks filled = ground arith
  equals_self (composite id mok mindex slots) ks filled =
      rw (same_id id) (equal_slots_self slots mindex ks filled)

  equal_slots_self :
      (slots : Slots) (n : ℕ) (ks : List ℕ)
      → kinds_slots slots n ≡ some ks
      → equal_slots slots n slots ≡ says true
  equal_slots_self end zero ks filled = refl
  equal_slots_self (null_slot rest) zero ks filled = refl
  equal_slots_self (freed_slot rest) zero ks filled = refl
  equal_slots_self (slot c rest) zero ks filled = refl
  equal_slots_self end (suc n) ks filled = cc
  equal_slots_self (null_slot rest) (suc n) ks filled = cc
  equal_slots_self (freed_slot rest) (suc n) ks filled = cc
  equal_slots_self (slot c rest) (suc n) ks filled =
      let (xs, ys, first, others, _) = append?-eq-some (kinds c) (kinds_slots rest n) filled in
      ap (λ r. equal_then r (equal_slots rest n rest)) (equals_self c xs first)
      ∙ equal_slots_self rest n ys others

-- A composite whose slots in use hold commands is equal to each composite that has its identifier
-- and its slots, whatever count and `mok` that one has, so `equals` does not see commands that
-- only the other one runs.
pub equals-composite :
    (id mindex mindex' : ℕ) (mok mok' : TriBool) (slots : Slots) (ks : List ℕ)
    → kinds_slots slots mindex ≡ some ks
    → equals (composite id mok mindex slots) (composite id mok' mindex' slots) ≡ says true
unfolding equals
equals-composite id mindex mindex' mok mok' slots ks filled =
    rw (same_id id) (equal_slots_self slots mindex ks filled)
