-- ===== src/PoolFactory.antt =====
-- cpp/src/factory.hpp: `PoolFactory`, a vector of shared objects that `get` hands out. An object
-- stands with the count of its owners: the vector is one, and each `std::shared_ptr` outside it
-- another. How an object is made and initialised is a parameter. Fuel counts the nested calls of
-- `get`.
pub mod Counts
pub mod Runs
mod Examples
use pensar.Base.{
  ℕ, zero, suc, ◌+◌, ◌-◌, ◌%◌, ◌^◌, Bool, Option, none, some, List, [], ◌∷◌, ◌++◌, ltb,
  if◌then◌else◌, length, replicate,
}

pub record Entry {κ} (T : Type κ) : Type κ where
  pub object : T
  pub use_count : ℕ

pub record Pool {κ} (T : Type κ) : Type κ where
  pub entries : List (Entry T)
  pub available_count : ℕ
  pub refill_size : ℕ

-- How a call of `get` ends: with the index of an object and the pool; by a failed assertion; or
-- it calls itself for ever.
pub data Got {κ} (T : Type κ) : Type κ where
  got : ℕ → Pool T → Got T
  assertion_fails endless : Got T

module _ {ℓ κ} {A : Type ℓ} {T : Type κ} (make : A → T) (initialize : A → T → T) where
  pub new_entry : A → Entry T
  new_entry args = record { object = make args; use_count = 1 }

  pub fill_pool : ℕ → A → Pool T → Pool T
  unfolding new_entry
  fill_pool pool_size args p = record p {
    entries = p.entries ++ replicate pool_size (new_entry args);
    available_count = pool_size;
  }

  pub add : ℕ → A → Pool T → Pool T
  unfolding new_entry
  add count args p = record p {
    entries = p.entries ++ replicate count (new_entry args);
    available_count = (p.available_count + count) % 2 ^ 64;
  }

  -- The constructor.
  pub new_pool : ℕ → ℕ → A → Pool T
  unfolding fill_pool
  new_pool initial_pool_size a_refill_size args =
      fill_pool initial_pool_size args
        (record { entries = []; available_count = 0; refill_size = a_refill_size })

  pub reset : ℕ → ℕ → A → Pool T → Pool T
  unfolding fill_pool
  reset initial_pool_size a_refill_size args p =
      record (fill_pool initial_pool_size args (record p { entries = [] })) {
        available_count = initial_pool_size;
        refill_size = a_refill_size;
      }

  pub set_refill_size : ℕ → Pool T → Pool T
  set_refill_size value p = record p { refill_size = value }

  -- The loop of `get`. The object found gets two more owners: the pointer on the heap that is
  -- never deleted, and the copy of it that the caller receives.
  pub take_free : A → List (Entry T) → Option (ℕ × List (Entry T))
  take_free args [] = none
  take_free args (e ∷ es) =
      let taken : Entry T = record {
        object = initialize args e.object;
        use_count = e.use_count + 2;
      } in
      let later : Option (ℕ × List (Entry T)) = elim (take_free args es) [
        | none ↦ none
        | some r ↦ some (suc r.0, e ∷ r.1)
      ] in
      if ltb e.use_count 2 then some (0, taken ∷ es) else later

  pub get : ℕ → A → Pool T → Got T
  unfolding take_free add
  get zero args p = endless
  get (suc fuel) args p =
      let again = get fuel args (add p.refill_size args p) in
      elim (take_free args p.entries) [
        | some (i, es) ↦
            got i (record p {
              entries = es;
              available_count = (p.available_count + 2 ^ 64 - 1) % 2 ^ 64;
            })
        | none ↦ if ltb 0 p.available_count then assertion_fails else again
      ]

-- A caller drops the pointer it holds to an object; the other two owners stay.
pub release_at {κ} : {T : Type κ} → ℕ → List (Entry T) → List (Entry T)
release_at i [] = []
release_at zero (e ∷ es) =
    (if ltb 2 e.use_count then record e { use_count = e.use_count - 1 } else e) ∷ es
release_at (suc i) (e ∷ es) = e ∷ release_at i es

pub release {κ} : {T : Type κ} → ℕ → Pool T → Pool T
unfolding release_at
release i p = record p { entries = release_at i p.entries }
