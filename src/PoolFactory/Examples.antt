-- ===== src/PoolFactory/Examples.antt =====
-- Runs of a pool, and its theorems at concrete pools.
use pensar.Base.{ℕ, ◌≤◌, ◌≡◌, refl, inl, inr, ◌⊎◌, some, List, [], ◌∷◌, arith, length}
use pensar.PoolFactory.{Entry, Pool, new_pool}
use pensar.PoolFactory.Counts.{free, given_out}
use pensar.PoolFactory.Runs.{run, run-new_pool}

-- Objects that are the arguments they were last initialised with.
abbrev make : ℕ → ℕ
make args = args

abbrev initialize : ℕ → ℕ → ℕ
initialize args object = args

abbrev taken : Entry ℕ
taken = record { object = 7; use_count = 3 }

abbrev full : ℕ → Pool ℕ
full refill = record { entries = taken ∷ []; available_count = 0; refill_size = refill }

-- A pointer got and dropped, and another got.
abbrev calls : List (ℕ ⊎ ℕ)
calls = inl 5 ∷ inr 0 ∷ inl 6 ∷ []

second_object :
    run make initialize calls (new_pool make initialize 1 1 9)
    ≡ some (record {
      entries = record { object = 5; use_count = 2 } ∷ record { object = 6; use_count = 3 } ∷ [];
      available_count = 0;
      refill_size = 1;
    })
unfolding run new_pool
second_object = refl

run-new_pool_example :
    (p : Pool ℕ) × (run make initialize calls (new_pool make initialize 1 1 9) ≡ some p)
    × (free p.entries ≡ p.available_count)
    × (given_out p.entries ≡ 2)
    × (2 ≤ length p.entries)
run-new_pool_example =
    run-new_pool make initialize calls 1 1 9 (omega arith) (omega arith) (omega arith)
