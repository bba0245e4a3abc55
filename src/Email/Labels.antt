-- ===== src/Email/Labels.antt =====
-- The labels of a text: `find` after `find` against a split at every separator.
use pensar.Base.{
  ℕ, zero, suc, ◌+◌, ◌<◌, ◌≡◌, refl, sym, Bool, true, ◌&&◌, none, some, List, [], ◌∷◌, arith,
  length, ◌==◌, if◌then◌else◌, Bool-cases, Option-cases, inl, inr, ◌⊎◌,
}
use pensar.Base.Search.{break_at, split_on, split_on-break_at, break_at-lt}
use pensar.Email.{is_valid_label, label_loop, after_last, after_last?}

abbrev pub all_labels : (List ℕ → Bool) → List (List ℕ) → Bool
all_labels p [] = true
all_labels p (l ∷ ls) = p l && all_labels p ls

abbrev pub last_label : List (List ℕ) → List ℕ
last_label [] = []
last_label (l ∷ []) = l
last_label (l ∷ m ∷ ls) = last_label (m ∷ ls)

-- With fuel for every character the loop finds each label valid, and counts them, or stops at
-- one that is not.
pub label_loop-split_on :
    (fuel : ℕ) (xs : List ℕ) (n : ℕ)
    → length xs < fuel
    → label_loop fuel xs n ≡ (
        if all_labels is_valid_label (split_on b'.' xs)
        then some (n + length (split_on b'.' xs))
        else none)
unfolding label_loop
label_loop-split_on zero xs n h = elim h [ ]
label_loop-split_on (suc fuel) xs n h = elim (Option-cases (break_at b'.' xs).1) [
  | inl e ↦ rw (split_on-break_at b'.' xs, e) (ground arith)
  | inr (after, e) ↦
      rw (split_on-break_at b'.' xs, e)
        (ground (
          arith,
          label_loop-split_on fuel after (suc n) (omega (arith, break_at-lt b'.' xs after e)),
        ))
]

-- Without a separator the text is its one label; with one, the last label is what follows it.
after_last?-cases :
    (c : ℕ) (xs : List ℕ)
    → ((after_last? c xs ≡ none) × (split_on c xs ≡ xs ∷ []))
      ⊎ ((t l m : List ℕ) × (ls : List (List ℕ)) × (after_last? c xs ≡ some t)
          × (split_on c xs ≡ l ∷ m ∷ ls)
          × (last_label (m ∷ ls) ≡ t))
unfolding after_last? split_on
after_last?-cases c [] = inl (refl, refl)
after_last?-cases c (x ∷ xs) = elim (Bool-cases (x == c)) [
  | inl here ↦ elim (after_last?-cases c xs) [
    | inl (e, s) ↦ inr (xs, [], xs, [], rw (e, after_last?, here), rw (here, s), refl)
    | inr (t, l, m, ls, e, s, last) ↦
        inr (t, [], l, m ∷ ls, rw (e, after_last?), rw (here, s), last)
  ]
  | inr on ↦ elim (after_last?-cases c xs) [
    | inl (e, s) ↦ inl (rw (e, after_last?, on), rw (on, s))
    | inr (t, l, m, ls, e, s, last) ↦ inr (t, x ∷ l, m, ls, rw (e, after_last?), rw (on, s), last)
  ]
]

pub after_last-last_label : (c : ℕ) (xs : List ℕ) → after_last c xs ≡ last_label (split_on c xs)
unfolding after_last
after_last-last_label c xs = elim (after_last?-cases c xs) [
  | inl (e, s) ↦ rw (e, after_last, s)
  | inr (t, l, m, ls, e, s, last) ↦ rw (e, after_last, s) (sym last)
]
