-- ===== src/DbConnection/SamplePool.antt =====
-- A pool of connections that can be run.
use pensar.Base.{
  ℕ, ◌+◌, suc, ◌≤◌, ◌≡◌, refl, Bool, false, not, ◌&&◌, ◌||◌, List, [], ◌∷◌, ◌==◌, if◌then◌else◌,
  arith,
}
use pensar.DbConnection.{runs, fails, Database}
use pensar.DbConnection.Leases.{IsPool}

-- A pool without a bound, whose world is the list of the leased positions: a lease takes one above
-- them all.
-- Which statements fail is an argument.
abbrev pub is_member : ℕ → List ℕ → Bool
is_member j [] = false
is_member j (x ∷ xs) = (j == x) || is_member j xs

abbrev pub above : List ℕ → ℕ
above [] = 0
above (x ∷ xs) = suc (x + above xs)

abbrev pub without : ℕ → List ℕ → List ℕ
without i [] = []
without i (x ∷ xs) = if x == i then without i xs else x ∷ without i xs

abbrev pub pool : (List ℕ → Bool) → Database (List ℕ)
pool fails_on = record {
  lease = λ w. (above w, above w ∷ w);
  give_back = without;
  open_at = λ i text w. runs w;
  execute = λ i text w. if fails_on text then fails w else runs w;
}

is_member-above : (w : List ℕ) (j : ℕ) → above w ≤ j → is_member j w ≡ false
is_member-above [] j h = refl
is_member-above (x ∷ w) j h = ground (arith, is_member-above w j)

is_member-without :
    (i : ℕ) (w : List ℕ) (j : ℕ) → is_member j (without i w) ≡ (not (j == i) && is_member j w)
is_member-without i [] j = ground arith
is_member-without i (x ∷ w) j = ground (arith, is_member-without i w j)

pub pool-IsPool : (fails_on : List ℕ → Bool) → IsPool (pool fails_on) (λ w j. is_member j w)
pool-IsPool fails_on = record {
  free = λ w. is_member-above w (above w) (omega arith);
  taken = λ w j. refl;
  returned = is_member-without;
  kept = λ i text w j. ground arith;
}
