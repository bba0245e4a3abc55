-- ===== src/Distance/Nearest.antt =====
-- `min_distance`: the element nearest to a string.
use pensar.Base.{
  ℕ, suc, ◌≤◌, ◌≡◌, refl, ap, sym, Bool, true, false, List, [], ◌∷◌, some, get_elem?, ltb,
  if◌then◌else◌, arith, Bool-cases, inl, inr, ◌⊎◌,
}
use mathlib.Core.Path.{subst}
use pensar.Base.Outcome.{done}
use pensar.Base.Predicates.{All}
use pensar.Distance.{distance, min_loop, min_distance}

-- An element of the list, or the one found before.
abbrev OneOf : List ℕ → List ℕ → List (List ℕ) → Type 0
OneOf r m c = (r ≡ m) ⊎ ((i : ℕ) × (get_elem? c i ≡ some r))

-- At most as far away from `s` as each of the list.
abbrev pub Nearest : List ℕ → List ℕ → List (List ℕ) → Type 0
Nearest s r c = All (λ x. distance r s ≤ distance x s) c

OneOf-cons : (r m it : List ℕ) (c : List (List ℕ)) → OneOf r m c → OneOf r m (it ∷ c)
OneOf-cons r m it c (inl e) = inl e
OneOf-cons r m it c (inr (i, e)) = inr (suc i, e)

OneOf-head : (r m it : List ℕ) (c : List (List ℕ)) → OneOf r it c → OneOf r m (it ∷ c)
OneOf-head r m it c (inl e) = inr (0, ap some (sym e))
OneOf-head r m it c (inr (i, e)) = inr (suc i, e)

min_loop-closer :
    (s m it : List ℕ) (c : List (List ℕ)) (closer : Bool)
    → ltb (distance it s) (distance m s) ≡ closer
    → min_loop s m (distance m s) (it ∷ c)
      ≡ min_loop s (if closer then it else m) (distance (if closer then it else m) s) c
unfolding min_loop
min_loop-closer s m it c true e =
    ap (λ b. min_loop s (if b then it else m) (if b then distance it s else distance m s) c) e
min_loop-closer s m it c false e =
    ap (λ b. min_loop s (if b then it else m) (if b then distance it s else distance m s) c) e

-- What the loop is to give, from the nearest so far.
abbrev Found : List ℕ → List ℕ → List (List ℕ) → List ℕ → Type 0
Found s m c r = OneOf r m c × (distance r s ≤ distance m s) × Nearest s r c

min_loop-Nearest : (s m : List ℕ) (c : List (List ℕ)) → Found s m c (min_loop s m (distance m s) c)
min_loop-Nearest s m [] = unfold min_loop in (inl refl, omega arith, tt)
min_loop-Nearest s m (it ∷ c) = elim (Bool-cases (ltb (distance it s) (distance m s))) [
  | inl closer ↦
      let (one, near, all) = min_loop-Nearest s it c in
      subst (Found s m (it ∷ c)) (sym (min_loop-closer s m it c true closer))
        (OneOf-head (min_loop s it (distance it s) c) m it c one, ground arith, (near, all))
  | inr farther ↦
      let (one, near, all) = min_loop-Nearest s m c in
      subst (Found s m (it ∷ c)) (sym (min_loop-closer s m it c false farther))
        (OneOf-cons (min_loop s m (distance m s) c) m it c one, near, (ground arith, all))
]

-- From a container with an element, `min_distance` gives one of its elements, and none of them
-- is nearer to the string.
pub min_distance-Nearest :
    (s first : List ℕ) (c : List (List ℕ))
    → (r : List ℕ) × (min_distance s (first ∷ c) ≡ done r)
      × ((i : ℕ) × (get_elem? (first ∷ c) i ≡ some r))
      × Nearest s r (first ∷ c)
unfolding min_distance
min_distance-Nearest s first c =
    let (one, near, all) = min_loop-Nearest s first (first ∷ c) in
    (
      min_loop s first (distance first s) (first ∷ c),
      refl,
      elim one [ inl e ↦ (0, ap some (sym e)) | inr at ↦ at ],
      all,
    )
