-- ===== src/Command/Clone.antt =====
-- What `CompositeCommand::clone` returns.
use pensar.Base.{ℕ, zero, suc, ◌+◌, ◌≤◌, ◌≡◌, refl, ap, sym, arith}
use pensar.TriBool.{TriBool, unknown}
use pensar.Command.{
  Command, composite, Slots, end, null_slot, freed_slot, slot, faults, Effects, run, Cloned, cloned,
  terminates, bad_pointer, clone_then, of_outcome, clone, clone_slots, add, set_slot, null_slots,
  max_commands,
}

pub clone_then-eq-cloned {ℓ κ} :
    {A : Type ℓ} {B : Type κ} (m : Cloned A) (f : A → Cloned B) {b : B}
    → clone_then m f ≡ cloned b
    → (a : A) × (m ≡ cloned a) × (f a ≡ cloned b)
clone_then-eq-cloned (cloned a) f h = (a, refl, h)
clone_then-eq-cloned terminates f h = cc
clone_then-eq-cloned bad_pointer f h = cc

-- A successful `add` was below the limit, counts up, and behind the first slot keeps that slot.
add-cloned :
    (m : ℕ) (d : Slots) {r : ℕ × Slots}
    → of_outcome (add freed_slot m d) ≡ cloned r
    → (suc m ≤ 10) × (r ≡ (suc m, set_slot freed_slot m d))
unfolding add
add-cloned m d h = ground arith

set_slot-null :
    (m : ℕ) (d : Slots)
    → set_slot freed_slot (suc m) (null_slot d) ≡ null_slot (set_slot freed_slot m d)
unfolding set_slot
set_slot-null m d = refl

null_first-faults {ℓ} :
    {W : Type ℓ} (fx : Effects W) (id k m : ℕ) (slots d : Slots) (copy : Command) (w : W)
    → cloned (composite id unknown m slots) ≡ cloned copy
    → slots ≡ null_slot d
    → m ≡ suc k
    → (run fx copy w).0 ≡ faults
unfolding run
null_first-faults fx id k m slots d copy w made first count = ap (λ c. (run fx c w).0) (sym same)
  where
    same : composite id unknown (suc k) (null_slot d) ≡ copy
    same = cc

module _ (clone_leaf : ℕ → TriBool → ℕ → Cloned Command) where
  -- What the loop keeps: it counts up by its rounds, below the limit, and leaves a null first slot.
  clone_slots-counts :
      (s : Slots) (n m : ℕ) (d : Slots) {r : ℕ × Slots}
      → clone_slots clone_leaf s n (suc m, null_slot d) ≡ cloned r
      → suc m ≤ 10
      → (r.0 ≡ suc m + n) × (r.0 ≤ 10) × ((d' : Slots) × (r.1 ≡ null_slot d'))
  unfolding clone
  clone_slots-counts end zero m d e h = (ground arith, ground arith, (d, ground arith))
  clone_slots-counts (null_slot rest) zero m d e h = (ground arith, ground arith, (d, ground arith))
  clone_slots-counts (freed_slot rest) zero m d e h =
      (ground arith, ground arith, (d, ground arith))
  clone_slots-counts (slot c rest) zero m d e h = (ground arith, ground arith, (d, ground arith))
  clone_slots-counts end (suc n) m d e h = cc
  clone_slots-counts (null_slot rest) (suc n) m d e h = cc
  clone_slots-counts (freed_slot rest) (suc n) m d e h = cc
  clone_slots-counts (slot c rest) (suc n) m d e h =
      let (c', _, later) = clone_then-eq-cloned (clone clone_leaf c) _ e in
      let (r', added, rest_ok) =
        clone_then-eq-cloned (of_outcome (add freed_slot (suc m) (null_slot d))) _ later in
      let (below, eq) = add-cloned (suc m) (null_slot d) added in
      let (count, bound, first) =
        clone_slots-counts rest n (suc m) (set_slot freed_slot m d)
          (rw (eq, set_slot-null m d) at rest_ok) below in
      (omega arith, bound, first)

  -- The copy of a composite that holds commands never works: `clone` returns at most for five
  -- commands, and then running the copy reads through a null pointer in its first slot.
  pub run-clone {ℓ} :
      {W : Type ℓ} (fx : Effects W) (id n : ℕ) (mok : TriBool) (slots : Slots) (copy : Command)
      (w : W)
      → clone clone_leaf (composite id mok (suc n) slots) ≡ cloned copy
      → suc n ≤ 10
      → (suc n ≤ 5) × ((run fx copy w).0 ≡ faults)
  unfolding clone run null_slots
  run-clone fx id n mok slots copy w e h =
      let (r, copied, made) =
        clone_then-eq-cloned (clone_slots clone_leaf slots (suc n) (suc n, null_slots max_commands))
          _ e in
      let (count, bound, (d, first)) = clone_slots-counts slots (suc n) n (null_slots 9) copied h in
      (omega arith, null_first-faults fx id (n + suc n) r.0 r.1 d copy w made first (omega arith))
