-- ===== src/OpenMode/Names.antt =====
-- The names of the flags of a mode tell the mode.
use pensar.Base.{
  arith, ℕ, ◌≡◌, refl, sym, Bool, true, false, ◌&&◌, ◌||◌, List, [], ◌∷◌, ◌==◌, if◌then◌else◌, map,
}
use pensar.Base.Search.{split_on}
use pensar.OpenMode.{OpenMode, to_string, mode_eq, same_flag}

-- The words between the bars, without their spaces.
without_spaces : List ℕ → List ℕ
without_spaces [] = []
without_spaces (c ∷ s) = let rest = without_spaces s in if c == b' ' then rest else c ∷ rest

same_text : List ℕ → List ℕ → Bool
same_text [] [] = true
same_text [] (y ∷ t) = false
same_text (x ∷ s) [] = false
same_text (x ∷ s) (y ∷ t) = x == y && same_text s t

has_word : List ℕ → List (List ℕ) → Bool
unfolding same_text
has_word w [] = false
has_word w (v ∷ vs) = same_text w v || has_word w vs

-- The flags whose names are words of a text.
pub read_mode : List ℕ → OpenMode
unfolding without_spaces has_word split_on
read_mode s =
    let words = map without_spaces (split_on b'|' s) in
    record {
      input = has_word (b'i' ∷ b'n' ∷ []) words;
      output = has_word (b'o' ∷ b'u' ∷ b't' ∷ []) words;
      binary = has_word (b'b' ∷ b'i' ∷ b'n' ∷ b'a' ∷ b'r' ∷ b'y' ∷ []) words;
      app = has_word (b'a' ∷ b'p' ∷ b'p' ∷ []) words;
      ate = has_word (b'a' ∷ b't' ∷ b'e' ∷ []) words;
      trunc = has_word (b't' ∷ b'r' ∷ b'u' ∷ b'n' ∷ b'c' ∷ []) words;
    }

-- A test holds for both Booleans.
abbrev both : (Bool → Bool) → Bool
both f = f true && f false

both_at : (f : Bool → Bool) → both f ≡ true → (b : Bool) → f b ≡ true
both_at f h true = ground arith
both_at f h false = ground arith

both_ends : (a b : Bool) → (a && b) ≡ true → (a ≡ true) × (b ≡ true)
both_ends true true h = (refl, refl)
both_ends true false h = (refl, h)
both_ends false b h = (h, cc)

same_flag_eq : (a b : Bool) → same_flag a b ≡ true → a ≡ b
unfolding same_flag
same_flag_eq true true h = refl
same_flag_eq true false h = sym h
same_flag_eq false true h = h
same_flag_eq false false h = refl

mode_eq_eq : (a b : OpenMode) → mode_eq a b ≡ true → a ≡ b
unfolding mode_eq
mode_eq_eq a b h =
    let (h₁, h₂) =
      both_ends
        ((same_flag a.input b.input && same_flag a.output b.output)
          && (same_flag a.binary b.binary && same_flag a.app b.app))
        (same_flag a.ate b.ate && same_flag a.trunc b.trunc) h in
    let (h₃, h₄) =
      both_ends (same_flag a.input b.input && same_flag a.output b.output)
        (same_flag a.binary b.binary && same_flag a.app b.app) h₁ in
    let (i, o) = both_ends (same_flag a.input b.input) (same_flag a.output b.output) h₃ in
    let (bin, app) = both_ends (same_flag a.binary b.binary) (same_flag a.app b.app) h₄ in
    let (ate, trunc) = both_ends (same_flag a.ate b.ate) (same_flag a.trunc b.trunc) h₂ in
    rw
      (
        same_flag_eq a.input b.input i,
        same_flag_eq a.output b.output o,
        same_flag_eq a.binary b.binary bin,
        same_flag_eq a.app b.app app,
        same_flag_eq a.ate b.ate ate,
        same_flag_eq a.trunc b.trunc trunc,
      )
      refl

abbrev made : Bool → Bool → Bool → Bool → Bool → Bool → OpenMode
made i o b a e t = record { input = i; output = o; binary = b; app = a; ate = e; trunc = t }

abbrev told : Bool → Bool → Bool → Bool → Bool → Bool → Bool
told i o b a e t = mode_eq (read_mode (to_string (made i o b a e t))) (made i o b a e t)

told_always :
    both (λ i. both (λ o. both (λ b. both (λ a. both (λ e. both (λ t. told i o b a e t)))))) ≡ true
unfolding mode_eq read_mode to_string
told_always = refl

-- The words of the text of a mode are the names of its flags, so the text tells the mode.
pub read_mode-to_string : (m : OpenMode) → read_mode (to_string m) ≡ m
read_mode-to_string m = mode_eq_eq (read_mode (to_string m)) m (
    both_at (λ t. told m.input m.output m.binary m.app m.ate t)
      (both_at (λ e. both (λ t. told m.input m.output m.binary m.app e t))
        (both_at (λ a. both (λ e. both (λ t. told m.input m.output m.binary a e t)))
          (both_at (λ b. both (λ a. both (λ e. both (λ t. told m.input m.output b a e t))))
            (both_at (λ o. both (λ b. both (λ a. both (λ e. both (λ t. told m.input o b a e t)))))
              (both_at
                (λ i. both (λ o. both (λ b. both (λ a. both (λ e. both (λ t. told i o b a e t))))))
                told_always m.input)
              m.output)
            m.binary)
          m.app)
        m.ate)
      m.trunc)
