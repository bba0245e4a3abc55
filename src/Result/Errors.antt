-- ===== src/Result/Errors.antt =====
-- What is left of an error in a result.
use pensar.Base.{ℕ, ◌≡◌, refl, true, not, List}
use pensar.TriBool.{tri_true}
use pensar.Result.{Result, is_good, is_bad, assign_value, assign_ok, assign_message}

module _ {ℓ} {T : Type ℓ} where
  -- A result is bad exactly when it is not good.
  pub is_bad-is_good : (r : Result T) → is_bad r ≡ not (is_good r)
  unfolding is_bad is_good
  is_bad-is_good r = refl

  -- A result that got a message stays bad when it gets a value, and only an assignment of a `Bool`
  -- makes it good again, with the message still there.
  pub is_bad-assign_value :
      (err : List ℕ) (v : T) (r : Result T)
      → let failed = assign_value v (assign_message err r) in
        (is_bad failed ≡ true)
        × (is_good (assign_ok tri_true failed) ≡ true)
        × ((assign_ok tri_true failed).merror_message ≡ err)
        × ((assign_ok tri_true failed).mresult ≡ v)
  unfolding is_bad is_good assign_value assign_message assign_ok
  is_bad-assign_value err v r = (refl, refl, refl, refl)
