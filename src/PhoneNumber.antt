-- ===== src/PhoneNumber.antt =====
-- contact/phone.hpp: `PhoneNumber`, three fixed strings and a qualifier, which its equality leaves
-- out.
pub mod Equality
use pensar.Base.{ℕ, Bool, not, ◌&&◌}
use pensar.FixedString.{FixedString, Sensitivity, fixed_equal}

pub record PhoneNumber : Type 0 where
  pub mcountry_code : FixedString
  pub mareacode : FixedString
  pub mnumber : FixedString
  pub mqualifier : ℕ

module _ (remove_accent : ℕ → ℕ) (s : Sensitivity) where
  pub equal_country_code : PhoneNumber → PhoneNumber → Bool
  equal_country_code p other = fixed_equal remove_accent s p.mcountry_code other.mcountry_code

  pub equal_area_code : PhoneNumber → PhoneNumber → Bool
  equal_area_code p other = fixed_equal remove_accent s p.mareacode other.mareacode

  pub equal_number : PhoneNumber → PhoneNumber → Bool
  equal_number p other = fixed_equal remove_accent s p.mnumber other.mnumber

  -- `operator==`; `operator!=` is its negation.
  pub phone_equal : PhoneNumber → PhoneNumber → Bool
  unfolding equal_country_code equal_area_code equal_number
  phone_equal p other =
      (equal_country_code p other && equal_area_code p other) && equal_number p other
