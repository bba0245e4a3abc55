-- ===== src/PersonName/Words.antt =====
-- A word read from a stream into a fixed string.
use pensar.Base.{ℕ, ◌<◌, ◌≡◌, refl, ap, ◌∙◌, true, false, List, [], ◌∷◌, ◌++◌, length, ◌==◌, arith}
use pensar.Base.Outcome.{done, ◌>>=◌}
use pensar.Base.Predicates.{All}
use pensar.FixedString.{FixedString, str, copy, until_null}
use pensar.FixedString.Copy.{copy-str}
use pensar.PersonName.{
  max_name, InStream, is_space, of_word, skip_spaces, take_word, read_word, read_fixed,
}

-- A word that fits a name: it has a character, no space, no null character, and room for one.
abbrev pub IsName : List ℕ → Type 0
IsName w =
    (0 < length w) × (length w < max_name) × All (λ c. (is_space c ≡ false) × ((c == 0) ≡ false)) w

abbrev pub NoSpaceStart : List ℕ → Type 0
NoSpaceStart [] = Unit
NoSpaceStart (c ∷ s) = is_space c ≡ true

take_word-append :
    (w rest : List ℕ)
    → All (λ c. (is_space c ≡ false) × ((c == 0) ≡ false)) w
    → NoSpaceStart rest
    → take_word (w ++ rest) ≡ (w, rest)
unfolding take_word
take_word-append [] [] h end = refl
take_word-append [] (c ∷ rest) h end = rw end refl
take_word-append (c ∷ w) rest h end = rw (h.0.0, take_word-append w rest h.1 end) refl

skip_spaces_none : (c : ℕ) (s : List ℕ) → is_space c ≡ false → skip_spaces (c ∷ s) ≡ c ∷ s
unfolding skip_spaces
skip_spaces_none c s h = rw h refl

read_word-append :
    (w rest : List ℕ)
    → IsName w
    → NoSpaceStart rest
    → read_word (record { left = w ++ rest; failed = false })
      ≡ (w, record { left = rest; failed = false })
unfolding read_word
read_word-append [] rest (some_char, _, _) end = elim some_char [ ]
read_word-append (c ∷ w) rest (_, _, h) end =
    ap (λ t. of_word (take_word t)) (skip_spaces_none c (w ++ rest) h.0.0)
    ∙ ap of_word (take_word-append (c ∷ w) rest h end)

until_null_word :
    (w : List ℕ) → All (λ c. (is_space c ≡ false) × ((c == 0) ≡ false)) w → until_null w ≡ w
unfolding until_null
until_null_word [] h = refl
until_null_word (c ∷ w) h = rw h.0.1 (ap (◌∷◌ c) (until_null_word w h.1))

pub read_fixed-append :
    (w rest : List ℕ) (f : FixedString)
    → IsName w
    → NoSpaceStart rest
    → (g : FixedString) × (read_fixed (record { left = w ++ rest; failed = false }) f
        ≡ done (g, record { left = rest; failed = false }))
      × (str g ≡ w)
unfolding read_fixed
read_fixed-append w rest f name end =
    let (g, copied, _, text) = copy-str 0 max_name w f (omega arith) name.1 in
    (
      g,
      ap (λ (r : List ℕ × InStream). copy 0 max_name r.0 true true f >>= (λ h. done (h, r.1)))
            (read_word-append w rest name end)
          ∙ ap (λ o. o >>= (λ h. done (h, record { left = rest; failed = false }))) copied,
      text ∙ until_null_word w name.2,
    )

pub read_fixed_end :
    (f : FixedString)
    → (g : FixedString) × (read_fixed (record { left = []; failed = false }) f
        ≡ done (g, record { left = []; failed = true }))
      × (str g ≡ [])
unfolding read_fixed read_word until_null
read_fixed_end f =
    let (g, copied, _, text) = copy-str 0 max_name [] f (omega arith) (omega arith) in
    (g, ap (λ o. o >>= (λ h. done (h, record { left = []; failed = true }))) copied, text)
