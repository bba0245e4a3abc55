-- ===== src/Constraint.antt =====
-- cpp/src/constraint.hpp: constraints and their composition. A constraint checks a number: by a range,
-- by a test of its own, as `StringConstraint` by a regular expression, which is a parameter here, or
-- by two other constraints and an operand.
pub mod Meaning
mod Examples
use pensar.Base.{ℕ, Bool, true, false, not, ◌&&◌, ◌||◌, leb, if◌then◌else◌}

-- The alternatives of `OpType`.
pub data OpIndex : Type 0 where
  and_op or_op xor_op : OpIndex

pub data Constraint : Type 0 where
  checked : (ℕ → Bool) → Constraint
  range : ℕ → ℕ → Constraint
  composed : OpIndex → Constraint → Constraint → Constraint

-- The operator `^` of two Booleans.
xor : Bool → Bool → Bool
xor a b = if a then not b else b

-- `AndOperand`, `OrOperand` and `XorOperand`, on what the two constraints say.
pub and_operand : Bool → Bool → Bool
and_operand left right = left && right

pub or_operand : Bool → Bool → Bool
or_operand left right = left || right

pub xor_operand : Bool → Bool → Bool
unfolding xor
xor_operand left right = xor left right

pub range_ok : ℕ → ℕ → ℕ → Bool
range_ok mmin mmax t = leb mmin t && leb t mmax

-- The range of one value.
pub single : ℕ → Constraint
single value = range value value

-- `switch (op.index ())`
pub operand : OpIndex → Bool → Bool → Bool
unfolding and_operand or_operand xor_operand
operand and_op left right = and_operand left right
operand or_op left right = or_operand left right
operand xor_op left right = xor_operand left right

pub ok : Constraint → ℕ → Bool
unfolding range_ok operand
ok (checked test) t = test t
ok (range mmin mmax) t = range_ok mmin mmax t
ok (composed op left right) t = operand op (ok left t) (ok right t)

-- The methods of `Constraint`, and `NotOperand`.
pub or_with : Constraint → Constraint → ℕ → Bool
unfolding ok
or_with c other t = ok c t || ok other t

pub and_with : Constraint → Constraint → ℕ → Bool
unfolding ok
and_with c other t = ok c t && ok other t

pub xor_with : Constraint → Constraint → ℕ → Bool
unfolding ok xor
xor_with c other t = xor (ok c t) (ok other t)

pub not_ok : Constraint → ℕ → Bool
unfolding ok
not_ok c t = not (ok c t)

-- `operator ||`
pub either : Constraint → Constraint → Constraint
either left right = composed or_op left right
