-- ===== src/PersonName/Streams.antt =====
-- A name written to a stream and read back.
use pensar.PersonName.Words.{IsName, NoSpaceStart, read_fixed-append, read_fixed_end}
use pensar.Base.{
  ◌⊎◌, ℕ, ◌≡◌, refl, ap, sym, ◌∙◌, true, false, List, [], ◌∷◌, ◌++◌, append_assoc, append-nil,
  length, ◌==◌, if◌then◌else◌, arith, inl, inr,
}
use pensar.Base.Outcome.{Outcome, done, ◌>>=◌}
use pensar.FixedString.{FixedString, str, str_length, empty}
use pensar.PersonName.{
  PersonName, InStream, peeks_space, ignore_space, read_fixed, write_name, read_middle, read_name,
}

-- A name is not empty, and starts with no space.
name_starts :
    (w rest : List ℕ) → IsName w → peeks_space (record { left = w ++ rest; failed = false }) ≡ false
unfolding peeks_space
name_starts [] rest (some_char, _, _) = elim some_char [ ]
name_starts (c ∷ w) rest (_, _, h) = ground (arith, h.0.0)

-- Behind a space that is ignored.
ignore_space_once :
    (s : List ℕ)
    → ignore_space (record { left = b' ' ∷ s; failed = false })
      ≡ record { left = s; failed = false }
unfolding ignore_space peeks_space
ignore_space_once s = refl

read_middle-append :
    (w rest : List ℕ) (f : FixedString)
    → IsName w
    → NoSpaceStart rest
    → (g : FixedString) × (read_middle (record { left = w ++ rest; failed = false }) f
        ≡ done (g, record { left = rest; failed = false }))
      × (str g ≡ w)
unfolding read_middle
read_middle-append w rest f name end =
    let (g, eq, text) = read_fixed-append w rest f name end in
    (g, rw (name_starts w rest name) eq, text)

-- The three reads of a name, one after the other.
read_name-steps :
    (p : PersonName) (f g h : FixedString) (s₁ s₂ s₃ : InStream) (is : InStream)
    → read_fixed is p.mfirst ≡ done (f, s₁)
    → read_middle (ignore_space s₁) p.mmiddle ≡ done (g, s₂)
    → read_fixed (ignore_space s₂) p.mlast ≡ done (h, s₃)
    → read_name is p ≡ done (record { mfirst = f; mmiddle = g; mlast = h }, s₃)
unfolding read_name
read_name-steps p f g h s₁ s₂ s₃ is first middle last =
    ap
      (λ (o : Outcome (FixedString × InStream)). o >>= (λ a.
        read_middle (ignore_space a.1) p.mmiddle
        >>= (λ b. read_fixed (ignore_space b.1) p.mlast >>= (λ c. made a b c))))
      first
    ∙ ap
        (λ (o : Outcome (FixedString × InStream)).
          o >>= (λ b. read_fixed (ignore_space b.1) p.mlast >>= (λ c. made (f, s₁) b c)))
        middle
    ∙ ap (λ (o : Outcome (FixedString × InStream)). o >>= (λ c. made (f, s₁) (g, s₂) c)) last
  where
    made :
        FixedString × InStream
        → FixedString × InStream
        → FixedString × InStream
        → Outcome (PersonName × InStream)
    made a b c = done (record { mfirst = a.0; mmiddle = b.0; mlast = c.0 }, c.1)

empty-name : (f : FixedString) → IsName (str f) → empty f ≡ false
unfolding empty str_length
empty-name f name = ground (arith, name.0)

empty_none : (f : FixedString) → str f ≡ [] → empty f ≡ true
unfolding empty str_length
empty_none f none = ap (λ t. length t == 0) none

ignore_space_end :
    ignore_space (record { left = []; failed = false }) ≡ record { left = []; failed = false }
unfolding ignore_space peeks_space
ignore_space_end = refl

write_name-middle :
    (p : PersonName)
    → empty p.mmiddle ≡ false
    → write_name p ≡ str p.mfirst ++ (b' ' ∷ (str p.mmiddle ++ (b' ' ∷ str p.mlast)))
unfolding write_name
write_name-middle p some_middle =
    rw some_middle (
      ap (λ t. str p.mfirst ++ (b' ' ∷ t)) (append_assoc (str p.mmiddle) (b' ' ∷ []) (str p.mlast)))

write_name_short :
    (p : PersonName) → empty p.mmiddle ≡ true → write_name p ≡ str p.mfirst ++ (b' ' ∷ str p.mlast)
unfolding write_name
write_name_short p none = rw none refl

abbrev good : List ℕ → InStream
good s = record { left = s; failed = false }

-- The last word of a stream.
read_last :
    (w : List ℕ) (f : FixedString)
    → IsName w
    → (g : FixedString) × (read_fixed (good w) f ≡ done (g, good [])) × (str g ≡ w)
read_last w f name =
    let (g, eq, text) = read_fixed-append w [] f name tt in
    (g, ap (λ t. read_fixed (good t) f) (sym (append-nil w)) ∙ eq, text)

-- A name of three words, each of one character at least and with room for its null character, is
-- written to a stream and read back the same. Without a middle name the last name is read as the
-- middle name, and the last name is empty.
pub read_name-write_name :
    (p q : PersonName)
    → IsName (str p.mfirst)
    → IsName (str p.mlast)
    → IsName (str p.mmiddle) ⊎ (str p.mmiddle ≡ [])
    → (r : PersonName) × (is : InStream) × (read_name
          (record { left = write_name p; failed = false })
          q
        ≡ done (r, is))
      × (str r.mfirst ≡ str p.mfirst)
      × (str r.mmiddle ≡ (if empty p.mmiddle then str p.mlast else str p.mmiddle))
      × (str r.mlast ≡ (if empty p.mmiddle then [] else str p.mlast))
read_name-write_name p q first last (inl middle) =
    let some_middle = empty-name p.mmiddle middle in
    let (f, eq₁, text₁) =
      read_fixed-append (str p.mfirst) (b' ' ∷ (str p.mmiddle ++ (b' ' ∷ str p.mlast))) q.mfirst
        first refl in
    let (g, eq₂, text₂) =
      read_middle-append (str p.mmiddle) (b' ' ∷ str p.mlast) q.mmiddle middle refl in
    let (h, eq₃, text₃) = read_last (str p.mlast) q.mlast last in
    (
      record { mfirst = f; mmiddle = g; mlast = h },
      good [],
      ap (λ t. read_name (good t) q) (write_name-middle p some_middle)
          ∙ read_name-steps q f g h (good (b' ' ∷ (str p.mmiddle ++ (b' ' ∷ str p.mlast))))
              (good (b' ' ∷ str p.mlast)) (good [])
              (good (str p.mfirst ++ (b' ' ∷ (str p.mmiddle ++ (b' ' ∷ str p.mlast))))) eq₁
              (ap (λ s. read_middle s q.mmiddle)
                  (ignore_space_once (str p.mmiddle ++ (b' ' ∷ str p.mlast)))
                ∙ eq₂)
              (ap (λ s. read_fixed s q.mlast) (ignore_space_once (str p.mlast)) ∙ eq₃),
      text₁,
      text₂ ∙ ap (λ b. if b then str p.mlast else str p.mmiddle) (sym some_middle),
      text₃ ∙ ap (λ b. if b then [] else str p.mlast) (sym some_middle),
    )
read_name-write_name p q first last (inr none) =
    let no_middle = empty_none p.mmiddle none in
    let (f, eq₁, text₁) =
      read_fixed-append (str p.mfirst) (b' ' ∷ str p.mlast) q.mfirst first refl in
    let (g, eq₂, text₂) = read_middle-append (str p.mlast) [] q.mmiddle last tt in
    let (h, eq₃, text₃) = read_fixed_end q.mlast in
    (
      record { mfirst = f; mmiddle = g; mlast = h },
      record { left = []; failed = true },
      ap (λ t. read_name (good t) q) (write_name_short p no_middle)
          ∙ read_name-steps q f g h (good (b' ' ∷ str p.mlast)) (good [])
              (record { left = []; failed = true }) (good (str p.mfirst ++ (b' ' ∷ str p.mlast)))
              eq₁
              (ap (λ s. read_middle s q.mmiddle) (ignore_space_once (str p.mlast))
                ∙ ap (λ t. read_middle (good t) q.mmiddle) (sym (append-nil (str p.mlast)))
                ∙ eq₂)
              (ap (λ s. read_fixed s q.mlast) ignore_space_end ∙ eq₃),
      text₁,
      text₂ ∙ ap (λ b. if b then str p.mlast else str p.mmiddle) (sym no_middle),
      text₃ ∙ ap (λ b. if b then [] else str p.mlast) (sym no_middle),
    )
