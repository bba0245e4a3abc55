-- ===== src/PhoneNumber/Equality.antt =====
-- Which phone numbers are equal.
use pensar.Base.{ℕ, ◌≡◌, ◌↔◌, true}
use pensar.FixedString.{Sensitivity}
use pensar.FixedString.Triples.{SameKeys, three_equal_iff}
use pensar.PhoneNumber.{PhoneNumber, equal_country_code, equal_area_code, equal_number, phone_equal}

-- Two phone numbers are equal exactly when their country codes, their area codes and their numbers
-- have the same keys, whatever their qualifiers.
pub phone_equal-iff_keys :
    (remove_accent : ℕ → ℕ) (s : Sensitivity) (p q : PhoneNumber)
    → (phone_equal remove_accent s p q ≡ true) ↔ (
        SameKeys remove_accent s p.mcountry_code q.mcountry_code
        × SameKeys remove_accent s p.mareacode q.mareacode
        × SameKeys remove_accent s p.mnumber q.mnumber)
unfolding phone_equal equal_country_code equal_area_code equal_number
phone_equal-iff_keys remove_accent s p q =
    three_equal_iff remove_accent s p.mcountry_code p.mareacode p.mnumber q.mcountry_code
      q.mareacode q.mnumber
