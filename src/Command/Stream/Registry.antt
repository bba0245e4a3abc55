-- ===== src/Command/Stream/Registry.antt =====
-- The registry is a map from names to creators.
use pensar.Base.{
  ℕ, ◌≡◌, refl, ap, ◌∙◌, true, false, some, List, [], ◌∷◌, if◌then◌else◌, arith, Bool-cases, inl,
  inr,
}
use pensar.ObjectFormat.{same_bytes}
use pensar.ObjectFormat.RoundTrip.{same_bytes_self}
use pensar.Command.{Command}
use pensar.Command.Stream.{register_type, find_creator}

same_bytes_eq : (xs ys : List ℕ) → same_bytes xs ys ≡ true → xs ≡ ys
unfolding same_bytes
same_bytes_eq [] [] h = refl
same_bytes_eq [] (y ∷ ys) h = cc
same_bytes_eq (x ∷ xs) [] h = cc
same_bytes_eq (x ∷ xs) (y ∷ ys) h = ground (arith, same_bytes_eq xs ys)

find_registered :
    (name : List ℕ) (made : Command) (registry : List (List ℕ × Command))
    → find_creator name (register_type name made registry) ≡ some made
unfolding register_type find_creator
find_registered name made [] = rw (same_bytes_self name) refl
find_registered name made (r ∷ rs) = elim (Bool-cases (same_bytes r.0 name)) [
  | inl here ↦ rw here (rw (same_bytes_self name) refl)
  | inr other ↦ rw other (rw other (find_registered name made rs))
]

find_other :
    (name other : List ℕ) (made : Command) (registry : List (List ℕ × Command))
    → same_bytes name other ≡ false
    → find_creator other (register_type name made registry) ≡ find_creator other registry
unfolding register_type find_creator
find_other name other made [] differs = rw differs refl
find_other name other made (r ∷ rs) differs = elim (Bool-cases (same_bytes r.0 name)) [
  | inl here ↦
      let both : same_bytes r.0 other ≡ false =
        ap (λ n. same_bytes n other) (same_bytes_eq r.0 name here) ∙ differs in
      rw (here, both) (rw differs refl)
  | inr elsewhere ↦ rw elsewhere (
      ap (λ o. if same_bytes r.0 other then some r.1 else o)
        (find_other name other made rs differs))
]

-- A class that is registered is found under its name, whatever was registered before, and every
-- other name gives what it gave.
pub find_creator-register_type :
    (name other : List ℕ) (made : Command) (registry : List (List ℕ × Command))
    → same_bytes name other ≡ false
    → (find_creator name (register_type name made registry) ≡ some made)
      × (find_creator other (register_type name made registry) ≡ find_creator other registry)
find_creator-register_type name other made registry differs =
    (find_registered name made registry, find_other name other made registry differs)
