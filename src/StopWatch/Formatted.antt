-- ===== src/StopWatch/Formatted.antt =====
-- `elapsed_formatted`: the text of a time, and what it is read as.
use pensar.Base.{
  ap₂, ℕ, ◌+◌, ◌-◌, ◌*◌, ◌^◌, ◌<◌, ◌≡◌, refl, ap, ◌∙◌, false, Option, none, some, List, [], ◌∷◌,
  ◌++◌, if◌then◌else◌, arith,
}
use pensar.Text.{is_digit}
use pensar.Text.Numbers.{pos, pad_left0, AllDigits, read_decimal, pad_left0-digits}
use pensar.StopWatch.{Fields, split_elapsed}
use pensar.StopWatch.Elapsed.{split_elapsed-total}

-- A field with what follows it; `none` is a failed assertion.
abbrev field_then : Option (List ℕ) → Option (List ℕ) → Option (List ℕ)
field_then none more = none
field_then (some s) none = none
field_then (some s) (some t) = some (s ++ t)

abbrev behind : ℕ → Option (List ℕ) → Option (List ℕ)
behind separator none = none
behind separator (some t) = some (separator ∷ t)

-- The text of the fields: hours, minutes and seconds, and three fields of three digits.
unfoldable pub formatted : Fields → Option (List ℕ)
formatted f = field_then (pad_left0 (pos f.hours) 2) (
    behind 58 (
      field_then (pad_left0 (pos f.minutes) 2) (
        behind 58 (
          field_then (pad_left0 (pos f.seconds) 2) (
            behind 46 (
              field_then (pad_left0 (pos f.milliseconds) 3) (
                behind 46 (
                  field_then (pad_left0 (pos f.microseconds) 3)
                    (behind 46 (pad_left0 (pos f.nanoseconds) 3))))))))))

unfoldable pub elapsed_formatted : ℕ → Option (List ℕ)
unfolding formatted
elapsed_formatted elapsed_nanoseconds = formatted (split_elapsed elapsed_nanoseconds)

-- The numbers of a text, between characters that are no digits.
unfoldable pub read_fields : ℕ → List ℕ → List ℕ
read_fields acc [] = acc ∷ []
read_fields acc (c ∷ s) =
    let more = read_fields (acc * 10 + (c - 48)) s in
    let next = read_fields 0 s in if is_digit c then more else acc ∷ next

read_fields-behind :
    (acc separator : ℕ) (s rest : List ℕ)
    → AllDigits s
    → is_digit separator ≡ false
    → read_fields acc (s ++ (separator ∷ rest)) ≡ read_decimal acc s ∷ read_fields 0 rest
unfolding read_fields read_decimal
read_fields-behind acc separator [] rest h k = rw k refl
read_fields-behind acc separator (c ∷ s) rest h k =
    rw h.0 (read_fields-behind (acc * 10 + (c - 48)) separator s rest h.1 k)

read_fields-last :
    (acc : ℕ) (s : List ℕ) → AllDigits s → read_fields acc s ≡ read_decimal acc s ∷ []
unfolding read_fields read_decimal
read_fields-last acc [] h = refl
read_fields-last acc (c ∷ s) h = rw h.0 (read_fields-last (acc * 10 + (c - 48)) s h.1)

-- What a text of fields is read as, when another is put before it.
field_then-read :
    (n width separator : ℕ) (o : Option (List ℕ)) (t ns : List ℕ)
    → width < 2 ^ 31
    → is_digit separator ≡ false
    → o ≡ some t
    → read_fields 0 t ≡ ns
    → (s : List ℕ) × (field_then (pad_left0 (pos n) width) (behind separator o) ≡ some s)
      × (read_fields 0 s ≡ n ∷ ns)
field_then-read n width separator o t ns h other e reads =
    let (s, padded, all_digits, value) = pad_left0-digits n width h in
    (
      s ++ (separator ∷ t),
      rw padded (rw e refl),
      read_fields-behind 0 separator s t all_digits other ∙ ap₂ ◌∷◌ value reads,
    )

formatted-read :
    (f : Fields)
    → (s : List ℕ) × (formatted f ≡ some s)
      × (read_fields 0 s
          ≡ f.hours ∷ f.minutes ∷ f.seconds ∷ f.milliseconds ∷ f.microseconds ∷ f.nanoseconds ∷ [])
unfolding formatted is_digit
formatted-read f =
    let (s₁, e₁, all_digits, value) = pad_left0-digits f.nanoseconds 3 (omega arith) in
    let r₁ = read_fields-last 0 s₁ all_digits ∙ ap (λ n. n ∷ []) value in
    let (s₂, e₂, r₂) = field_then-read f.microseconds 3 46 _ s₁ _ (omega arith) refl e₁ r₁ in
    let (s₃, e₃, r₃) = field_then-read f.milliseconds 3 46 _ s₂ _ (omega arith) refl e₂ r₂ in
    let (s₄, e₄, r₄) = field_then-read f.seconds 2 46 _ s₃ _ (omega arith) refl e₃ r₃ in
    let (s₅, e₅, r₅) = field_then-read f.minutes 2 58 _ s₄ _ (omega arith) refl e₄ r₄ in
    field_then-read f.hours 2 58 _ s₅ _ (omega arith) refl e₅ r₅

-- Every time that is not negative has a text, whose six numbers are those of a clock: minutes and
-- seconds below sixty, and the three behind them below a thousand; together they are the time.
pub elapsed_formatted-read :
    (t : ℕ)
    → (s : List ℕ) × (hours minutes seconds milliseconds microseconds nanoseconds : ℕ)
      × (elapsed_formatted t ≡ some s)
      × (read_fields 0 s
          ≡ hours ∷ minutes ∷ seconds ∷ milliseconds ∷ microseconds ∷ nanoseconds ∷ [])
      × (minutes < 60)
      × (seconds < 60)
      × (milliseconds < 1000)
      × (microseconds < 1000)
      × (nanoseconds < 1000)
      × (hours * 3600000000000
            + minutes * 60000000000
            + seconds * 1000000000
            + milliseconds * 1000000
            + microseconds * 1000
            + nanoseconds
          ≡ t)
unfolding elapsed_formatted
elapsed_formatted-read t =
    let f = split_elapsed t in
    let (s, text, numbers) = formatted-read f in
    let (m, sec, ms, us, ns, all, warned) = split_elapsed-total t in
    (
      s, f.hours, f.minutes, f.seconds, f.milliseconds, f.microseconds, f.nanoseconds, text,
      numbers, m, sec, ms, us, ns, all,
    )
