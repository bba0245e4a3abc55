-- ===== src/Base/Search.antt =====
-- `find` of a character, and a text split at every separator.
use mathlib.Core.Path.{◌≡◌, refl, ap}
use mathlib.Core.Option.{Option, none, some}
use mathlib.Core.Logic.{inl, inr}
use mathlib.Core.List.{List, [], ◌∷◌, ◌++◌}
use Prim.Native.Nat.{ℕ, ◌<◌}
use native.Mathlib.Omega.{arith}
use pensar.Base.Tests.{◌==◌, if◌then◌else◌, Bool-cases}
use pensar.Base.Lists.{length}

-- The text before the first `c`, and what follows it, if there is one: the window that a `find`
-- from here gives.
unfoldable pub break_at : ℕ → List ℕ → List ℕ × Option (List ℕ)
break_at c [] = ([], none)
break_at c (x ∷ xs) =
    let (label, rest) = break_at c xs in if x == c then ([], some xs) else (x ∷ label, rest)

-- Every text has one label at least; a separator starts a new one.
abbrev pub cons_label : ℕ → List (List ℕ) → List (List ℕ)
cons_label x [] = (x ∷ []) ∷ []
cons_label x (l ∷ ls) = (x ∷ l) ∷ ls

unfoldable pub split_on : ℕ → List ℕ → List (List ℕ)
split_on c [] = [] ∷ []
split_on c (x ∷ xs) = let ls = split_on c xs in if x == c then [] ∷ ls else cons_label x ls

-- The first window is the first label, and the search goes on behind it.
abbrev pub rest_labels : ℕ → Option (List ℕ) → List (List ℕ)
rest_labels c none = []
rest_labels c (some after) = split_on c after

pub split_on-break_at :
    (c : ℕ) (xs : List ℕ) → split_on c xs ≡ (break_at c xs).0 ∷ rest_labels c (break_at c xs).1
unfolding split_on break_at
split_on-break_at c [] = refl
split_on-break_at c (x ∷ xs) = elim (Bool-cases (x == c)) [
  | inl here ↦ rw here
  | inr on ↦ rw on (ap (cons_label x) (split_on-break_at c xs))
]

pub break_at-lt :
    (c : ℕ) (xs after : List ℕ) → (break_at c xs).1 ≡ some after → length after < length xs
unfolding break_at
break_at-lt c [] after e = cc
break_at-lt c (x ∷ xs) after e = ground (arith, break_at-lt c xs after)

pub break_at-append :
    (c : ℕ) (xs after : List ℕ)
    → (break_at c xs).1 ≡ some after
    → xs ≡ (break_at c xs).0 ++ c ∷ after
unfolding break_at
break_at-append c [] after e = cc
break_at-append c (x ∷ xs) after e = elim (Bool-cases (x == c)) [
  | inl here ↦ rw here (ground arith)
  | inr on ↦ rw on (ap (◌∷◌ x) (break_at-append c xs after (rw on at e)))
]
