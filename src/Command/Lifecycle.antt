-- ===== src/Command/Lifecycle.antt =====
-- cpp/src/command.hpp: how a command gets its identifier, from the caller or from the generator of
-- the class, when it is constructed and when it is initialised again.
use pensar.Base.{
  ℕ, zero, suc, ◌+◌, ◌*◌, ◌^◌, ◌<◌, ◌≡◌, refl, ap, List, [], ◌∷◌, ◌==◌, if◌then◌else◌,
}
use pensar.TriBool.{TriBool}
use pensar.Generator.{Generator, null_id, get_id, get_ids}
use pensar.Generator.Identifiers.{Increasing, get_ids-Increasing}
use pensar.Command.{Command, leaf, composite, new_composite}

-- `id == NULL_ID ? mgenerator.get_id () : id`
pub choose_id : ℕ → Generator → ℕ × Generator
unfolding get_id
choose_id id g = if id == null_id then get_id g else (id, g)

pub construct_leaf : ℕ → TriBool → ℕ → Generator → Command × Generator
unfolding choose_id
construct_leaf aid mok kind g = let (id, g') = choose_id aid g in (leaf id mok kind, g')

pub construct_composite : ℕ → Generator → Command × Generator
unfolding choose_id new_composite
construct_composite aid g = let (id, g') = choose_id aid g in (new_composite id, g')

-- `Command::initialize`, which sets the identifier and `mok`.
pub initialize_command : ℕ → TriBool → Command → Generator → Command × Generator
unfolding choose_id
initialize_command aid new_mok (leaf id mok kind) g =
    let (id', g') = choose_id aid g in (leaf id' new_mok kind, g')
initialize_command aid new_mok (composite id mok mindex slots) g =
    let (id', g') = choose_id aid g in (composite id' new_mok mindex slots, g')

-- `CompositeCommand::initialize`, which sets the identifier only: the commands, their count and
-- `mok` stay as they were.
pub initialize_composite : ℕ → Command → Generator → Command × Generator
unfolding choose_id
initialize_composite aid (leaf id mok kind) g = (leaf id mok kind, g)
initialize_composite aid (composite id mok mindex slots) g =
    let (id', g') = choose_id aid g in (composite id' mok mindex slots, g')

abbrev pub command_id : Command → ℕ
command_id (leaf id mok kind) = id
command_id (composite id mok mindex slots) = id

-- Composites constructed one after the other without an identifier of their own.
pub construct_all : ℕ → Generator → List ℕ
unfolding construct_composite
construct_all zero g = []
construct_all (suc n) g =
    let (c, g') = construct_composite null_id g in
    let rest = construct_all n g' in command_id c ∷ rest

construct_all-get_ids : (n : ℕ) (g : Generator) → construct_all n g ≡ (get_ids n g).0
unfolding construct_all construct_composite choose_id new_composite get_ids get_id
construct_all-get_ids zero g = refl
construct_all-get_ids (suc n) g = ap (◌∷◌ (get_id g).0) (construct_all-get_ids n (get_id g).1)

-- While the numbers do not overflow, composites constructed without an identifier get identifiers
-- from the generator that increase, so no two of them have the same.
pub construct_all-Increasing :
    (n : ℕ) (g : Generator)
    → 0 < g.step
    → g.value + n * g.step < 2 ^ 63
    → Increasing g.value (construct_all n g)
construct_all-Increasing n g up bound =
    let (_, rising, _) = get_ids-Increasing n g up bound in rw (construct_all-get_ids n g) rising
