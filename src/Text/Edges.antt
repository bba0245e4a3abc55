-- ===== src/Text/Edges.antt =====
-- `pad`, `remove_delimiters` and `remove_ext`: what they do at the ends of a string.
use pensar.Base.{
  ℕ, ◌-◌, ◌^◌, ◌≤◌, ◌<◌, ◌≡◌, refl, ap, ◌∙◌, false, none, some, List, [], ◌∷◌, ◌++◌, arith, length,
  ◌==◌, ltb, get_or, if◌then◌else◌, Bool-cases, inl, inr, append-nil, length-append, take,
  replicate, take-append, is_empty,
}
use pensar.Base.Outcome.{done, throws, out_of_range}
use pensar.Base.Search.{break_at}
use pensar.Text.{pad, pad_left, pad_right, remove_delimiters, remove_ext, before_last_dot}

pad_nothing : (s : List ℕ) (c n : ℕ) → n ≤ length s → replicate (n - length s) c ≡ []
pad_nothing s c n h =
    let none_left : n - length s ≡ 0 = omega arith in ap (λ k. replicate k c) none_left

-- For an `n` below 2 to the 31, the string is filled up to `n` characters on the side asked
-- for, and never cut; for one from there to 2 to the 32 the assertion fails.
pub pad_ends :
    (s : List ℕ) (c n : ℕ)
    → n < 2 ^ 32
    → (pad s c n pad_right
        ≡ (if ltb n (2 ^ 31) then some (s ++ replicate (n - length s) c) else none))
      × (pad s c n pad_left
          ≡ (if ltb n (2 ^ 31) then some (replicate (n - length s) c ++ s) else none))
unfolding pad
pad_ends s c n h = elim (Bool-cases (ltb (length s) n)) [
  | inl e ↦ ground arith
  | inr e ↦ rw (pad_nothing s c n (ground arith), append-nil s) (ground arith)
]

get_or_last : (xs : List ℕ) (c : ℕ) → get_or (xs ++ c ∷ []) (length xs) 0 ≡ c
get_or_last [] c = refl
get_or_last (x ∷ xs) c = get_or_last xs c

remove_delimiters_both :
    (delimiter x : ℕ) (rest : List ℕ)
    → get_or (x ∷ rest) (length rest) 0 ≡ delimiter
    → x ≡ delimiter
    → is_empty rest ≡ false
    → remove_delimiters delimiter (x ∷ rest) ≡ done (take (length rest - 1) rest)
unfolding remove_delimiters
remove_delimiters_both delimiter x rest last first some_left = ground arith

is_empty-append : (s : List ℕ) (c : ℕ) → is_empty (s ++ c ∷ []) ≡ false
is_empty-append [] c = refl
is_empty-append (x ∷ s) c = refl

take-append_last : (s : List ℕ) (c : ℕ) → take (length (s ++ c ∷ []) - 1) (s ++ c ∷ []) ≡ s
take-append_last s c =
    take-append (length (s ++ c ∷ []) - 1) s (c ∷ []) (omega (arith, length-append s (c ∷ [])))

-- One delimiter is taken off each end; a string that is one delimiter makes the second call of
-- `erase` throw.
pub remove_delimiters_ends :
    (delimiter : ℕ) (s : List ℕ)
    → (remove_delimiters delimiter (delimiter ∷ (s ++ delimiter ∷ [])) ≡ done s)
      × (remove_delimiters delimiter (delimiter ∷ []) ≡ throws out_of_range)
remove_delimiters_ends delimiter s =
    let here : length (s ++ delimiter ∷ []) ≡ length (delimiter ∷ s) =
      omega (arith, length-append s (delimiter ∷ [])) in
    (
      remove_delimiters_both delimiter delimiter (s ++ delimiter ∷ [])
            (ap (λ k. get_or (delimiter ∷ (s ++ delimiter ∷ [])) k 0) here
              ∙ get_or_last (delimiter ∷ s) delimiter)
            refl (is_empty-append s delimiter)
          ∙ ap done (take-append_last s delimiter),
      unfold remove_delimiters in ground arith,
    )

before_last_dot-none : (ext : List ℕ) → (break_at b'.' ext).1 ≡ none → before_last_dot ext ≡ none
unfolding before_last_dot break_at
before_last_dot-none [] h = refl
before_last_dot-none (x ∷ xs) h = elim (Bool-cases (x == b'.')) [
  | inl e ↦ absurd (ground (arith, h, e))
  | inr e ↦ rw (before_last_dot-none xs (rw e at h), e) refl
]

before_last_dot-append :
    (base ext : List ℕ)
    → (break_at b'.' ext).1 ≡ none
    → before_last_dot (base ++ b'.' ∷ ext) ≡ some base
unfolding before_last_dot
before_last_dot-append [] ext h = rw (before_last_dot-none ext h) refl
before_last_dot-append (x ∷ base) ext h = rw (before_last_dot-append base ext h) refl

-- The extension is what follows the last dot: it is taken off with the dot, and a name without a
-- dot stays.
pub remove_ext-append :
    (base ext : List ℕ)
    → (break_at b'.' ext).1 ≡ none
    → (remove_ext (base ++ b'.' ∷ ext) ≡ base) × (remove_ext ext ≡ ext)
unfolding remove_ext
remove_ext-append base ext h = (
  rw (remove_ext, before_last_dot-append base ext h) refl,
  rw (remove_ext, before_last_dot-none ext h) refl,
)
