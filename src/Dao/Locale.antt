-- ===== src/Dao/Locale.antt =====
-- contact/data/locale_dao.hpp: the locales, and `LocaleDAO`.
use Prim.Native.String.{String}
use pensar.Base.{ℕ, Bool, true, Option, some, List, [], ◌∷◌}
use pensar.Dao.{
  text_value, Soci, Reply, literals, ◌>>=◌, send, in_session, first_row, each_row, narrow, to_bool,
}

pub record LocaleDto : Type 0 where
  pub id : ℕ
  pub code : List ℕ
  pub is_default : Bool

abbrev pub locales_text : List String
locales_text = "SELECT id, code, is_default FROM t_locale ORDER BY id" ∷ []

abbrev pub find_locale_text : List String
find_locale_text = "SELECT id, code, is_default FROM t_locale WHERE code = :c" ∷ []

abbrev pub default_locale_text : List String
default_locale_text =
    "SELECT id, code, is_default FROM t_locale WHERE is_default = TRUE LIMIT 1" ∷ []

abbrev pub refresh_text : List String
refresh_text = "SELECT fn_refresh_locale_mvs()" ∷ []

module _ {ℓ} {W R : Type ℓ} (soci : Soci W R) where
  unfoldable pub locale_of_row : R → Option LocaleDto
  unfolding narrow
  locale_of_row r = do
    id ← soci.get_int 0 r
    code ← soci.get_string 1 r
    is_default ← soci.get_int 2 r
    some (record { id = narrow id; code = code; is_default = to_bool is_default })

  -- The third column is not read.
  unfoldable pub default_of_row : R → Option LocaleDto
  unfolding narrow
  default_of_row r = do
    id ← soci.get_int 0 r
    code ← soci.get_string 1 r
    some (record { id = narrow id; code = code; is_default = true })

  unfoldable pub list_locales : W → Reply (List LocaleDto) W
  unfolding in_session send each_row locale_of_row
  list_locales =
      in_session soci [] [] (send soci (literals locales_text) [] (each_row locale_of_row))

  unfoldable pub find_by_code : List ℕ → W → Reply (Option LocaleDto) W
  unfolding in_session send first_row locale_of_row
  find_by_code code = in_session soci [] [] (
      send soci (literals find_locale_text) (("c", text_value code) ∷ []) (first_row locale_of_row))

  unfoldable pub get_default : W → Reply (Option LocaleDto) W
  unfolding in_session send first_row default_of_row
  get_default =
      in_session soci [] [] (send soci (literals default_locale_text) [] (first_row default_of_row))

  -- A method without a result returns 0.
  unfoldable pub refresh_materialized_views : W → Reply ℕ W
  unfolding in_session send
  refresh_materialized_views =
      in_session soci [] [] (send soci (literals refresh_text) [] (λ rows. some 0))
