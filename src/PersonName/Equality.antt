-- ===== src/PersonName/Equality.antt =====
-- Which names are equal.
use pensar.Base.{ℕ, ◌≡◌, ◌↔◌, true}
use pensar.FixedString.{Sensitivity}
use pensar.FixedString.Triples.{SameKeys, three_equal_iff}
use pensar.PersonName.{PersonName, name_equal}

-- Two names are equal exactly when their first, middle and last names have the same keys.
pub name_equal-iff_keys :
    (remove_accent : ℕ → ℕ) (s : Sensitivity) (p q : PersonName)
    → (name_equal remove_accent s p q ≡ true) ↔ (
        SameKeys remove_accent s p.mfirst q.mfirst
        × SameKeys remove_accent s p.mmiddle q.mmiddle
        × SameKeys remove_accent s p.mlast q.mlast)
unfolding name_equal
name_equal-iff_keys remove_accent s p q =
    three_equal_iff remove_accent s p.mfirst p.mmiddle p.mlast q.mfirst q.mmiddle q.mlast
