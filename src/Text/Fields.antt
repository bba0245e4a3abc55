-- ===== src/Text/Fields.antt =====
-- `split`: its fields, and the string again from them.
use pensar.Base.{
  ℕ, zero, suc, ◌<◌, ◌≡◌, refl, ap, ◌∙◌, Bool, true, false, none, some, List, [], ◌∷◌, ◌++◌, arith,
  length, ◌==◌, Bool-cases, Option-cases, inl, inr,
}
use pensar.Base.Predicates.{All}
use pensar.Base.Search.{break_at, cons_label, split_on, rest_labels, split_on-break_at, break_at-lt}
use pensar.Text.{field, split, split_loop}

abbrev pub fields : Bool → Bool → List (List ℕ) → List (List ℕ)
fields t e [] = []
fields t e (p ∷ ps) = field t e p ++ fields t e ps

-- The fields with the separator between them.
abbrev pub join : ℕ → List (List ℕ) → List ℕ
join c [] = []
join c (p ∷ []) = p
join c (p ∷ q ∷ ps) = p ++ c ∷ join c (q ∷ ps)

split_loop-split_on :
    (t e : Bool) (ch fuel : ℕ) (rest : List ℕ)
    → length rest < fuel
    → split_loop t e ch fuel rest ≡ fields t e (split_on ch rest)
unfolding split_loop
split_loop-split_on t e ch zero rest h = elim h [ ]
split_loop-split_on t e ch (suc fuel) rest h = elim (Option-cases (break_at ch rest).1) [
  | inl last ↦ rw (split_on-break_at ch rest, last) refl
  | inr (after, more) ↦
      rw (split_on-break_at ch rest, more)
        (ap (◌++◌ (field t e (break_at ch rest).0))
          (split_loop-split_on t e ch fuel after (omega (arith, break_at-lt ch rest after more))))
]

-- A string with a separator is split into its pieces between separators, each trimmed and left
-- out when empty as the flags say; one without goes in as it is, whatever the flags.
pub split-fields :
    (s : List ℕ) (ch : ℕ) (trim_elements include_empty_fields : Bool)
    → split s ch trim_elements include_empty_fields ≡ elim (break_at ch s).1 [
      | none ↦ s ∷ []
      | some after ↦ fields trim_elements include_empty_fields (split_on ch s)
    ]
unfolding split
split-fields s ch t e = elim (Option-cases (break_at ch s).1) [
  | inl alone ↦ rw (split, alone) refl
  | inr (after, more) ↦
      rw (split, more) (split_loop-split_on t e ch (suc (length s)) s (omega arith))
]

join-cons_label :
    (c x : ℕ) (l : List ℕ) (ls : List (List ℕ)) → join c ((x ∷ l) ∷ ls) ≡ x ∷ join c (l ∷ ls)
join-cons_label c x l [] = refl
join-cons_label c x l (m ∷ ls) = refl

join-split_on : (c : ℕ) (xs : List ℕ) → join c (split_on c xs) ≡ xs
unfolding split_on
join-split_on c [] = refl
join-split_on c (x ∷ xs) =
    let rest = rw (split_on-break_at c xs) at (join-split_on c xs) in
    elim (Bool-cases (x == c)) [
      | inl here ↦ rw (here, split_on-break_at c xs) (ground (arith, rest))
      | inr on ↦
          rw (on, split_on-break_at c xs)
            (join-cons_label c x (break_at c xs).0 (rest_labels c (break_at c xs).1)
              ∙ ap (◌∷◌ x) rest)
    ]

fields_kept : (ps : List (List ℕ)) → fields false true ps ≡ ps
unfolding field
fields_kept [] = refl
fields_kept (p ∷ ps) = ap (◌∷◌ p) (fields_kept ps)

-- No character of a field is the separator.
abbrev pub IsField : ℕ → List ℕ → Type 0
IsField c field = All (λ x. (x == c) ≡ false) field

break_at-alone : (c : ℕ) (xs : List ℕ) → (break_at c xs).1 ≡ none → IsField c xs
unfolding break_at
break_at-alone c [] e = tt
break_at-alone c (x ∷ xs) e = elim (Bool-cases (x == c)) [
  | inl here ↦ absurd (ground (arith, e, here))
  | inr on ↦ (on, break_at-alone c xs (rw on at e))
]

cons_label-IsField :
    (c x : ℕ) (ls : List (List ℕ))
    → (x == c) ≡ false
    → All (IsField c) ls
    → All (IsField c) (cons_label x ls)
cons_label-IsField c x [] other h = ((other, tt), tt)
cons_label-IsField c x (l ∷ ls) other h = ((other, h.0), h.1)

split_on-IsField : (c : ℕ) (xs : List ℕ) → All (IsField c) (split_on c xs)
unfolding split_on
split_on-IsField c [] = (tt, tt)
split_on-IsField c (x ∷ xs) = elim (Bool-cases (x == c)) [
  | inl here ↦ rw here (tt, split_on-IsField c xs)
  | inr on ↦ rw on (cons_label-IsField c x (split_on c xs) on (split_on-IsField c xs))
]

-- The untrimmed fields, empty ones included, hold no separator, and joined by the separator they are
-- the string again: so the string is split at every separator, and nowhere else.
pub join-split :
    (s : List ℕ) (ch : ℕ)
    → (join ch (split s ch false true) ≡ s) × All (IsField ch) (split s ch false true)
join-split s ch = elim (Option-cases (break_at ch s).1) [
  | inl alone ↦ rw (split-fields s ch false true, alone) (refl, (break_at-alone ch s alone, tt))
  | inr (after, more) ↦
      rw (split-fields s ch false true, more, fields_kept (split_on ch s))
        (join-split_on ch s, split_on-IsField ch s)
]
