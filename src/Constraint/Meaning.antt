-- ===== src/Constraint/Meaning.antt =====
-- What a constraint means.
use pensar.Base.{ℕ, ◌≤◌, ◌≡◌, true, ◌↔◌, ◌⊎◌, arith}
use pensar.Constraint.{
  and_op, or_op, xor_op, Constraint, checked, range, composed, xor, ok, range_ok, operand,
  and_operand, or_operand, xor_operand,
}

-- A number satisfies a range if it is between the bounds, and a composition if it satisfies both,
-- one at least, or just one of the two.
abbrev pub Satisfies : Constraint → ℕ → Type 0
Satisfies (checked test) t = test t ≡ true
Satisfies (range mmin mmax) t = (mmin ≤ t) × (t ≤ mmax)
Satisfies (composed and_op left right) t = Satisfies left t × Satisfies right t
Satisfies (composed or_op left right) t = Satisfies left t ⊎ Satisfies right t
Satisfies (composed xor_op left right) t =
    (Satisfies left t × (¬ (Satisfies right t))) ⊎ ((¬ (Satisfies left t)) × Satisfies right t)

-- `ok` of a constraint, however it is composed, says what the constraint means.
pub ok-Satisfies : (c : Constraint) (t : ℕ) → (ok c t ≡ true) ↔ Satisfies c t
unfolding ok range_ok operand and_operand or_operand xor_operand xor
ok-Satisfies (checked test) t = (λ h. h, λ h. h)
ok-Satisfies (range mmin mmax) t = ground arith
ok-Satisfies (composed and_op left right) t =
    ground (arith, ok-Satisfies left t, ok-Satisfies right t)
ok-Satisfies (composed or_op left right) t =
    ground (arith, ok-Satisfies left t, ok-Satisfies right t)
ok-Satisfies (composed xor_op left right) t =
    ground (arith, ok-Satisfies left t, ok-Satisfies right t)
