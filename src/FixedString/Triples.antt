-- ===== src/FixedString/Triples.antt =====
-- Three fixed strings compared with three others, as the records of the contacts do.
use pensar.Base.{ℕ, ◌≡◌, ◌↔◌, true, ◌&&◌, map, arith}
use pensar.FixedString.{FixedString, Sensitivity, str, fixed_equal}
use pensar.FixedString.Compare.{key, fixed_equal-iff_keys}

module _ (remove_accent : ℕ → ℕ) (s : Sensitivity) where
  -- The same keys.
  abbrev pub SameKeys : FixedString → FixedString → Type 0
  SameKeys f g = map (key remove_accent s) (str f) ≡ map (key remove_accent s) (str g)

  pub three_equal_iff :
      (f₁ f₂ f₃ g₁ g₂ g₃ : FixedString)
      → (((fixed_equal remove_accent s f₁ g₁ && fixed_equal remove_accent s f₂ g₂)
            && fixed_equal remove_accent s f₃ g₃)
          ≡ true)
        ↔ (SameKeys f₁ g₁ × SameKeys f₂ g₂ × SameKeys f₃ g₃)
  three_equal_iff f₁ f₂ f₃ g₁ g₂ g₃ = ground (
    arith,
    fixed_equal-iff_keys remove_accent s f₁ g₁,
    fixed_equal-iff_keys remove_accent s f₂ g₂,
    fixed_equal-iff_keys remove_accent s f₃ g₃,
  )
