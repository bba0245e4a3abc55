-- ===== src/Text/Replace.antt =====
-- The loops that replace: they end when a replacement is shorter than what it replaces, and
-- never when it holds it.
use pensar.Base.{
  ℕ, zero, suc, ◌<◌, ◌≡◌, refl, ap, Bool, true, false, none, some, List, [], ◌∷◌, ◌++◌, arith,
  length, Option-cases, inl, inr, ◌⊎◌, length-append,
}
use pensar.Text.{strip_prefix, find, replace_loop}

abbrev pub occurs : List ℕ → List ℕ → Bool
occurs o s = elim (find o s) [ none ↦ false | some cut ↦ true ]

strip_prefix-some : (o s after : List ℕ) → strip_prefix o s ≡ some after → s ≡ o ++ after
unfolding strip_prefix
strip_prefix-some [] s after e = ground (arith, e)
strip_prefix-some (x ∷ o) [] after e = cc
strip_prefix-some (x ∷ o) (y ∷ s) after e = ground (arith, strip_prefix-some o s after)

pub find-some :
    (o s before after : List ℕ) → find o s ≡ some (before, after) → s ≡ before ++ o ++ after
unfolding find
find-some o [] before after e = elim (Option-cases (strip_prefix o [])) [
  | inl missing ↦ absurd (ground (arith, e, missing))
  | inr (a, found) ↦ ground (arith, e, found, strip_prefix-some o [] a found)
]
find-some o (x ∷ s) before after e = elim (Option-cases (strip_prefix o (x ∷ s))) [
  | inl missing ↦ elim (Option-cases (find o s)) [
    | inl none_left ↦ absurd (ground (arith, e, missing, none_left))
    | inr ((b, a), found) ↦ ground (arith, e, missing, found, find-some o s b a found)
  ]
  | inr (a, found) ↦ ground (arith, e, found, strip_prefix-some o (x ∷ s) a found)
]

length-replaced :
    (b o r a : List ℕ) → length r < length o → length ((b ++ r) ++ a) < length ((b ++ o) ++ a)
length-replaced b o r a h = omega (
  arith,
  length-append (b ++ r) a,
  length-append b r,
  length-append (b ++ o) a,
  length-append b o,
)

-- With more fuel than characters, replacing by a shorter string ends, and what it replaced does
-- not occur in the result.
pub replace_loop_ends :
    (fuel : ℕ) (o r s : List ℕ)
    → length r < length o
    → length s < fuel
    → (t : List ℕ) × (replace_loop fuel o r s ≡ some t) × (occurs o t ≡ false)
unfolding replace_loop
replace_loop_ends zero o r s shorter h = elim h [ ]
replace_loop_ends (suc fuel) o r s shorter h = elim (Option-cases (find o s)) [
  | inl missing ↦ rw (replace_loop, missing) (s, refl, rw (occurs, missing) refl)
  | inr ((b, a), found) ↦
      rw (replace_loop, found)
        (replace_loop_ends fuel o r (b ++ r ++ a) shorter
          (omega (arith, length-replaced b o r a shorter, ap length (find-some o s b a found))))
]

strip_prefix-append :
    (o s more after : List ℕ)
    → strip_prefix o s ≡ some after
    → strip_prefix o (s ++ more) ≡ some (after ++ more)
unfolding strip_prefix
strip_prefix-append [] s more after e = ground (arith, e)
strip_prefix-append (x ∷ o) [] more after e = cc
strip_prefix-append (x ∷ o) (y ∷ s) more after e =
    ground (arith, strip_prefix-append o s more after)

pub occurs_here : (o s after : List ℕ) → strip_prefix o s ≡ some after → occurs o s ≡ true
unfolding find
occurs_here o [] after e = rw (occurs, e) refl
occurs_here o (x ∷ s) after e = rw (occurs, e) refl

pub occurs_later : (o s : List ℕ) (x : ℕ) → occurs o s ≡ true → occurs o (x ∷ s) ≡ true
unfolding find
occurs_later o s x h = elim (Option-cases (strip_prefix o (x ∷ s))) [
  | inl missing ↦
      rw (occurs, missing)
        (elim (Option-cases (find o s)) [
          | inl e ↦ absurd (ground (arith, h, e))
          | inr (cut, e) ↦ rw e refl
        ])
  | inr (after, found) ↦ occurs_here o (x ∷ s) after found
]

occurs-cases :
    (o s : List ℕ) (x : ℕ)
    → occurs o (x ∷ s) ≡ true
    → ((after : List ℕ) × (strip_prefix o (x ∷ s) ≡ some after)) ⊎ (occurs o s ≡ true)
unfolding find
occurs-cases o s x h = elim (Option-cases (strip_prefix o (x ∷ s))) [
  | inl missing ↦ inr (elim (Option-cases (find o s)) [
    | inl e ↦ absurd (ground (arith, missing, h, e))
    | inr (cut, e) ↦ rw (occurs, e) refl
  ])
  | inr found ↦ inl found
]

occurs-append : (o s more : List ℕ) → occurs o s ≡ true → occurs o (s ++ more) ≡ true
unfolding find strip_prefix
occurs-append [] [] [] h = refl
occurs-append [] [] (y ∷ more) h = refl
occurs-append (x ∷ o) [] more h = cc
occurs-append o (x ∷ s) more h = elim (occurs-cases o s x h) [
  | inl (after, found) ↦
      occurs_here o (x ∷ (s ++ more)) (after ++ more)
        (strip_prefix-append o (x ∷ s) more after found)
  | inr later ↦ occurs_later o (s ++ more) x (occurs-append o s more later)
]

occurs-prepend : (o before s : List ℕ) → occurs o s ≡ true → occurs o (before ++ s) ≡ true
occurs-prepend o [] s h = h
occurs-prepend o (x ∷ before) s h = occurs_later o (before ++ s) x (occurs-prepend o before s h)

-- Where the replacement holds what it replaces, one occurrence keeps the loop going for ever: no
-- fuel is enough.
pub replace_loop_endless :
    (fuel : ℕ) (o r s : List ℕ)
    → occurs o r ≡ true
    → occurs o s ≡ true
    → replace_loop fuel o r s ≡ none
unfolding replace_loop
replace_loop_endless zero o r s holds h = refl
replace_loop_endless (suc fuel) o r s holds h = elim (Option-cases (find o s)) [
  | inl missing ↦ absurd (ground (arith, missing, h))
  | inr ((b, a), found) ↦
      rw (replace_loop, found)
        (replace_loop_endless fuel o r (b ++ r ++ a) holds
          (occurs-append o (b ++ r) a (occurs-prepend o b r holds)))
]
