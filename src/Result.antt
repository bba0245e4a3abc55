-- ===== src/Result.antt =====
-- cpp/src/code_util.hpp: `Result`, a value with a `Bool` that says if it is good and a message. The
-- message is its text, and `operator==` and `operator<` of the value are parameters.
pub mod Errors
use pensar.Base.{ℕ, Bool, not, List, []}
use pensar.TriBool.{TriBool, tri_false, tri_true, to_bool, tri_eq}

pub record Result {ℓ} (T : Type ℓ) : Type ℓ where
  pub mresult : T
  pub mok : TriBool
  pub merror_message : List ℕ

module _ {ℓ} {T : Type ℓ} where
  -- The constructors: from a value, from a message with a value, and from a message alone, where the
  -- value is the one that `T` starts with.
  pub of_value : T → Result T
  of_value rt = record { mresult = rt; mok = tri_true; merror_message = [] }

  pub of_parts : T → TriBool → List ℕ → Result T
  of_parts rt ok err = record { mresult = rt; mok = ok; merror_message = err }

  pub of_error : List ℕ → T → Result T
  of_error err r = record { mresult = r; mok = tri_false; merror_message = err }

  -- The conversions to `Bool` and to `bool`, and `operator!`, by way of the conversion of `Bool`.
  pub result_ok : Result T → TriBool
  result_ok r = r.mok

  pub is_good : Result T → Bool
  is_good r = tri_eq r.mok tri_true

  pub is_bad : Result T → Bool
  is_bad r = not (to_bool r.mok)

  pub has_value : (T → T → Bool) → Result T → T → Bool
  has_value eq r other = eq r.mresult other

  pub has_other : (T → T → Bool) → Result T → T → Bool
  unfolding has_value
  has_other eq r other = not (has_value eq r other)

  pub is_below : (T → T → Bool) → Result T → T → Bool
  is_below less r other = less r.mresult other

  -- The three assignments.
  pub assign_value : T → Result T → Result T
  assign_value other r = record r { mresult = other }

  pub assign_ok : TriBool → Result T → Result T
  assign_ok other r = record r { mok = other }

  pub assign_message : List ℕ → Result T → Result T
  assign_message other r = record r { merror_message = other; mok = tri_false }
