-- ===== src/Generator/Examples.antt =====
-- Identifiers given, and the theorems at concrete generators.
use pensar.Base.{◌≡◌, refl, length, arith}
use pensar.Generator.{Generator, new_generator, get_id, get_ids, next, null_id}
use pensar.Generator.Identifiers.{Increasing, get_ids-Increasing}

abbrev by_five : Generator
by_five = record { id = 0; initial_value = 10; value = 10; step = 5 }

made : new_generator null_id 10 5 ≡ by_five
unfolding new_generator
made = refl

get_ids-Increasing_example :
    (length (get_ids 3 by_five).0 ≡ 3)
    × Increasing 10 (get_ids 3 by_five).0
    × (next by_five ≡ (get_id by_five).0)
get_ids-Increasing_example = get_ids-Increasing 3 by_five (omega arith) (omega arith)
