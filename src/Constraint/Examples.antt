-- ===== src/Constraint/Examples.antt =====
-- Constraints checked, and the theorem at a concrete constraint.
use pensar.Base.{◌≡◌, refl, true, false, ◌↔◌, ◌==◌}
use pensar.Constraint.{Constraint, checked, range, composed, xor_op, and_op, ok}
use pensar.Constraint.Meaning.{Satisfies, ok-Satisfies}

-- Just one of: from 3 to 9, and not 5.
abbrev three_to_nine : Constraint
three_to_nine = composed xor_op (range 3 9) (composed and_op (range 5 5) (checked (λ t. t == 5)))

five_fails : ok three_to_nine 5 ≡ false
unfolding ok
five_fails = refl

ok-Satisfies_example : (ok three_to_nine 4 ≡ true) ↔ Satisfies three_to_nine 4
ok-Satisfies_example = ok-Satisfies three_to_nine 4
