-- ===== src/Command/Add.antt =====
-- `add`: a composite grows by one command at its end, up to ten.
use pensar.Base.{
  ℕ, zero, suc, ◌+◌, ◌≤◌, ◌<◌, ◌≡◌, refl, ap, ◌∙◌, sym, arith, Option, none, some, List, [], ◌∷◌,
  append_assoc, append-nil, length,
}
use native.Mathlib.Nat.{add-zero}
use native.Mathlib.Decide.{dec_lt}
use pensar.Base.Outcome.{Outcome, done, throws, logged_error, ◌>>=◌}
use pensar.TriBool.{TriBool}
use pensar.Command.{
  Command, composite, Slots, end, null_slot, freed_slot, slot, add_command, set_slot,
}
use pensar.Command.Run.{kinds, kinds_slots, append?}

unfoldable pub slots_length : Slots → ℕ
slots_length end = 0
slots_length (null_slot rest) = suc (slots_length rest)
slots_length (freed_slot rest) = suc (slots_length rest)
slots_length (slot c rest) = suc (slots_length rest)

append?-assoc : (a b c : Option (List ℕ)) → append? (append? a b) c ≡ append? a (append? b c)
append?-assoc none b c = refl
append?-assoc (some a) none c = refl
append?-assoc (some a) (some b) none = refl
append?-assoc (some a) (some b) (some c) = ap some (append_assoc a b c)

append?-nil : (a : Option (List ℕ)) → append? a (some []) ≡ a
append?-nil none = refl
append?-nil (some a) = ap some (append-nil a)

nil-append? : (a : Option (List ℕ)) → append? (some []) a ≡ a
nil-append? none = refl
nil-append? (some a) = refl

kinds_slots-zero : (s : Slots) → kinds_slots s 0 ≡ some []
unfolding kinds
kinds_slots-zero end = refl
kinds_slots-zero (null_slot rest) = refl
kinds_slots-zero (freed_slot rest) = refl
kinds_slots-zero (slot c rest) = refl

-- A command put behind `n` slots comes after what those hold.
kinds-set_slot :
    (cmd : Command) (s : Slots) (n : ℕ)
    → n < slots_length s
    → kinds_slots (set_slot (slot cmd) n s) (suc n) ≡ append? (kinds_slots s n) (kinds cmd)
unfolding set_slot kinds slots_length
kinds-set_slot cmd end n h = absurd (omega arith)
kinds-set_slot cmd (null_slot rest) zero h =
    rw (kinds_slots-zero rest) (append?-nil (kinds cmd) ∙ sym (nil-append? (kinds cmd)))
kinds-set_slot cmd (freed_slot rest) zero h =
    rw (kinds_slots-zero rest) (append?-nil (kinds cmd) ∙ sym (nil-append? (kinds cmd)))
kinds-set_slot cmd (slot c rest) zero h =
    rw (kinds_slots-zero rest) (append?-nil (kinds cmd) ∙ sym (nil-append? (kinds cmd)))
kinds-set_slot cmd (null_slot rest) (suc n) h = refl
kinds-set_slot cmd (freed_slot rest) (suc n) h = refl
kinds-set_slot cmd (slot c rest) (suc n) h =
    ap (append? (kinds c)) (kinds-set_slot cmd rest n (omega arith))
    ∙ sym (append?-assoc (kinds c) (kinds_slots rest n) (kinds cmd))

length-set_slot :
    (cmd : Command) (s : Slots) (n : ℕ) → slots_length (set_slot (slot cmd) n s) ≡ slots_length s
unfolding set_slot slots_length
length-set_slot cmd end n = refl
length-set_slot cmd (null_slot rest) zero = refl
length-set_slot cmd (freed_slot rest) zero = refl
length-set_slot cmd (slot c rest) zero = refl
length-set_slot cmd (null_slot rest) (suc n) = ap suc (length-set_slot cmd rest n)
length-set_slot cmd (freed_slot rest) (suc n) = ap suc (length-set_slot cmd rest n)
length-set_slot cmd (slot c rest) (suc n) = ap suc (length-set_slot cmd rest n)

-- `add` called for each of a row of commands.
pub add_all : List Command → Command → Outcome Command
add_all [] target = done target
add_all (cmd ∷ cmds) target = add_command cmd target >>= add_all cmds

pub all_kinds : List Command → Option (List ℕ)
all_kinds [] = some []
all_kinds (cmd ∷ cmds) = append? (kinds cmd) (all_kinds cmds)

add_command-composite :
    (cmd : Command) (id n : ℕ) (mok : TriBool) (s : Slots)
    → n < 10
    → add_command cmd (composite id mok n s)
      ≡ done (composite id mok (suc n) (set_slot (slot cmd) n s))
unfolding add_command
add_command-composite cmd id n mok s h = ground arith

add_command_full :
    (cmd : Command) (id n : ℕ) (mok : TriBool) (s : Slots)
    → 10 ≤ n
    → add_command cmd (composite id mok n s) ≡ throws logged_error
unfolding add_command
add_command_full cmd id n mok s h = ground arith

-- The two outcomes of adding commands to a composite with all ten slots.
add_all_outcomes :
    (cmds : List Command) (id n : ℕ) (mok : TriBool) (s : Slots)
    → slots_length s ≡ 10
    → (n + length cmds ≤ 10
        → (s' : Slots) × (add_all cmds (composite id mok n s)
            ≡ done (composite id mok (n + length cmds) s'))
          × (slots_length s' ≡ 10)
          × (kinds_slots s' (n + length cmds) ≡ append? (kinds_slots s n) (all_kinds cmds)))
      × (n ≤ 10 → 10 < n + length cmds → add_all cmds (composite id mok n s) ≡ throws logged_error)
unfolding add_all all_kinds
add_all_outcomes [] id n mok s ten = (
  λ h. (s, rw add-zero, ten, rw add-zero (sym (append?-nil (kinds_slots s n)))),
  λ h k. absurd (omega arith),
)
add_all_outcomes (cmd ∷ cmds) id n mok s ten =
    let s₁ = set_slot (slot cmd) n s in
    let ih = add_all_outcomes cmds id (suc n) mok s₁ (length-set_slot cmd s n ∙ ten) in
    (
      λ h.
          let (s', built, ten', held) = ih.0 (omega arith) in
          (
            s',
            rw (add_command-composite cmd id n mok s (omega arith), shift) built,
            ten',
            rw shift (
                held
                ∙ rw (kinds-set_slot cmd s n (omega arith))
                    (append?-assoc (kinds_slots s n) (kinds cmd) (all_kinds cmds))),
          ),
      λ h k. elim (dec_lt n 10) [
        | yes p ↦ rw (add_command-composite cmd id n mok s p) (ih.1 p (omega arith))
        | no p ↦ rw (add_command_full cmd id n mok s (omega arith))
      ],
    )
  where
    shift : n + suc (length cmds) ≡ suc n + length cmds
    shift = omega arith

-- On a composite with all ten slots: adding commands, while they are ten at most, appends them to
-- those it holds.
pub add_all-composite :
    (cmds : List Command) (id n : ℕ) (mok : TriBool) (s : Slots)
    → slots_length s ≡ 10
    → n + length cmds ≤ 10
    → (s' : Slots) × (add_all cmds (composite id mok n s)
        ≡ done (composite id mok (n + length cmds) s'))
      × (slots_length s' ≡ 10)
      × (kinds_slots s' (n + length cmds) ≡ append? (kinds_slots s n) (all_kinds cmds))
add_all-composite cmds id n mok s ten = (add_all_outcomes cmds id n mok s ten).0

-- On a composite with all ten slots and at most ten commands, adding more than fit throws.
pub add_all_full :
    (cmds : List Command) (id n : ℕ) (mok : TriBool) (s : Slots)
    → slots_length s ≡ 10
    → n ≤ 10
    → 10 < n + length cmds
    → add_all cmds (composite id mok n s) ≡ throws logged_error
add_all_full cmds id n mok s ten = (add_all_outcomes cmds id n mok s ten).1
