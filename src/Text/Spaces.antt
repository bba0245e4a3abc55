-- ===== src/Text/Spaces.antt =====
-- `remove_double_spaces`: runs of spaces become one space.
use pensar.Base.{
  ℕ, zero, suc, ◌≡◌, refl, ap, sym, ◌∙◌, Bool, true, false, ◌&&◌, Option, none, some, List, [], ◌∷◌,
  ◌++◌, arith, length, ◌==◌, get_or, if◌then◌else◌, Bool-cases, Option-cases, inl, inr,
}
use pensar.Text.{
  strip_prefix, find, replace_loop, replace_substr, double_spaces_loop, remove_double_spaces,
}
use pensar.Text.Replace.{occurs, find-some, replace_loop_ends, occurs_here, occurs_later}

abbrev two_spaces : List ℕ
two_spaces = 32 ∷ 32 ∷ []

abbrev one_space : List ℕ
one_space = 32 ∷ []

abbrev pub collapse : List ℕ → List ℕ
collapse [] = []
collapse (x ∷ xs) =
    let rest = collapse xs in if x == 32 && get_or rest 0 0 == 32 then rest else x ∷ rest

collapse-append :
    (before after : List ℕ)
    → collapse ((before ++ one_space) ++ after) ≡ collapse ((before ++ two_spaces) ++ after)
collapse-append [] after = ground arith
collapse-append (x ∷ before) after =
    ap (λ rest. if x == 32 && get_or rest 0 0 == 32 then rest else x ∷ rest)
      (collapse-append before after)

no_double_space :
    (s : List ℕ) (x : ℕ)
    → occurs two_spaces (x ∷ s) ≡ false
    → (x == 32 && get_or s 0 0 == 32) ≡ false
unfolding strip_prefix
no_double_space [] x h = ground arith
no_double_space (y ∷ s) x h = elim (Bool-cases (x == 32 && y == 32)) [
  | inl both ↦ absurd (ground (arith, h, both, occurs_here two_spaces (x ∷ y ∷ s) s))
  | inr apart ↦ apart
]

collapse_same : (s : List ℕ) → occurs two_spaces s ≡ false → collapse s ≡ s
collapse_same [] h = refl
collapse_same (x ∷ xs) h =
    let tail : occurs two_spaces xs ≡ false = elim (Bool-cases (occurs two_spaces xs)) [
      | inl e ↦ absurd (ground (h, arith, occurs_later two_spaces xs x e))
      | inr e ↦ e
    ] in
    rw (collapse_same xs tail, no_double_space xs x h) refl

replace_loop-collapse :
    (fuel : ℕ) (s t : List ℕ)
    → replace_loop fuel two_spaces one_space s ≡ some t
    → collapse t ≡ collapse s
unfolding replace_loop
replace_loop-collapse zero s t h = cc
replace_loop-collapse (suc fuel) s t h = elim (Option-cases (find two_spaces s)) [
  | inl missing ↦ ground (arith, rw (replace_loop, missing) at h)
  | inr ((b, a), found) ↦
      replace_loop-collapse fuel ((b ++ one_space) ++ a) t (rw (replace_loop, found) at h)
      ∙ collapse-append b a
      ∙ ap collapse (sym (find-some two_spaces s b a found))
]

replace_substr_result :
    (fuel : ℕ) (o r s t : List ℕ) (x : ℕ) (b : Bool)
    → replace_loop fuel o r (x ∷ s) ≡ some t
    → occurs o (x ∷ s) ≡ b
    → replace_substr fuel o r (x ∷ s) ≡ some (t, b)
unfolding replace_substr
replace_substr_result fuel o r s t x b ended h =
    λ i. elim (ended i) as (λ _. Option (List ℕ × Bool)) [ none ↦ none | some u ↦ some (u, h i) ]

replace_loop_last :
    (fuel : ℕ) (o r s : List ℕ) → occurs o s ≡ false → replace_loop (suc fuel) o r s ≡ some s
unfolding replace_loop
replace_loop_last fuel o r s h = elim (Option-cases (find o s)) [
  | inl missing ↦ rw (replace_loop, missing) refl
  | inr (cut, found) ↦ absurd (ground (arith, h, found))
]

-- A round of the outer loop.
double_spaces_loop_round :
    (fuel inner : ℕ) (s t : List ℕ) (x : ℕ) (b : Bool)
    → replace_loop inner two_spaces one_space (x ∷ s) ≡ some t
    → occurs two_spaces (x ∷ s) ≡ b
    → double_spaces_loop (suc fuel) inner (x ∷ s)
      ≡ (if b then double_spaces_loop fuel inner t else some t)
unfolding double_spaces_loop
double_spaces_loop_round fuel inner s t x true ended h =
    rw (double_spaces_loop, replace_substr_result inner two_spaces one_space s t x true ended h)
      refl
double_spaces_loop_round fuel inner s t x false ended h =
    rw (double_spaces_loop, replace_substr_result inner two_spaces one_space s t x false ended h)
      refl

-- A string without two spaces on end is what the loop returns.
double_spaces_loop_last :
    (fuel inner : ℕ) (s : List ℕ)
    → occurs two_spaces s ≡ false
    → double_spaces_loop (suc fuel) (suc inner) s ≡ some s
double_spaces_loop_last fuel inner [] h = unfold double_spaces_loop replace_substr in refl
double_spaces_loop_last fuel inner (x ∷ s) h =
    double_spaces_loop_round fuel (suc inner) s (x ∷ s) x false
      (replace_loop_last inner two_spaces one_space (x ∷ s) h) h

-- Two rounds of the loop, each with more fuel than characters, are enough, and give the string
-- with each run of spaces made one space.
pub remove_double_spaces-collapse :
    (s : List ℕ) → remove_double_spaces 2 (suc (length s)) s ≡ some (collapse s)
unfolding remove_double_spaces
remove_double_spaces-collapse [] = refl
remove_double_spaces-collapse (x ∷ s) =
    let (t, ended, clean) =
      replace_loop_ends (suc (length (x ∷ s))) two_spaces one_space (x ∷ s) (omega arith)
        (omega arith) in
    let same : some t ≡ some (collapse (x ∷ s)) = ap some (
      sym (collapse_same t clean) ∙ replace_loop-collapse (suc (length (x ∷ s))) (x ∷ s) t ended) in
    elim (Bool-cases (occurs two_spaces (x ∷ s))) [
      | inl e ↦
          double_spaces_loop_round 1 (suc (length (x ∷ s))) s t x true ended e
          ∙ double_spaces_loop_last 0 (length (x ∷ s)) t clean
          ∙ same
      | inr e ↦ double_spaces_loop_round 1 (suc (length (x ∷ s))) s t x false ended e ∙ same
    ]
