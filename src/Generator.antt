-- ===== src/Generator.antt =====
-- cpp/src/generator.hpp: `Generator`, which gives identifiers by steps. Its numbers are of 64 bits,
-- as their bit patterns. Where the sum of a signed number overflows, C++ leaves open what happens;
-- here it wraps.
pub mod Identifiers
mod Examples
use pensar.Base.{ℕ, zero, suc, ◌+◌, ◌%◌, ◌^◌, List, [], ◌∷◌, ◌==◌, if◌then◌else◌}

pub record Generator : Type 0 where
  pub id : ℕ
  pub initial_value : ℕ
  pub value : ℕ
  pub step : ℕ

-- `NULL_ID` is -1.
abbrev pub null_id : ℕ
null_id = 18446744073709551615

-- The constructor, and `initialize`, which sets the same fields.
pub new_generator : ℕ → ℕ → ℕ → Generator
new_generator aid initial_value step = record {
  id = if aid == null_id then 0 else aid;
  initial_value = initial_value;
  value = initial_value;
  step = step;
}

pub initialize : ℕ → ℕ → ℕ → Generator → Generator
initialize aid initial_value step g = record g {
  id = if aid == null_id then 0 else aid;
  initial_value = initial_value;
  value = initial_value;
  step = step;
}

pub next : Generator → ℕ
next g = (g.value + g.step) % 2 ^ 64

unfoldable pub get_id : Generator → ℕ × Generator
get_id g = let v = (g.value + g.step) % 2 ^ 64 in (v, record g { value = v })

pub current : Generator → ℕ
current g = g.value

pub set_value : ℕ → Generator → Generator
set_value val g = record g { value = val }

pub set_id : ℕ → Generator → Generator
set_id aid g = record g { id = aid }

-- The object that the pool hands out is initialised with the arguments of `get`.
pub clone : Generator → Generator × Generator
unfolding get_id new_generator
clone g = let (i, g') = get_id g in (new_generator i g.initial_value g.step, g')

-- A row of calls of `get_id`.
unfoldable pub get_ids : ℕ → Generator → List ℕ × Generator
unfolding get_id
get_ids zero g = ([], g)
get_ids (suc n) g = let (i, g₁) = get_id g in let (is, g₂) = get_ids n g₁ in (i ∷ is, g₂)
