-- ===== src/TriBool.antt =====
-- cpp/src/bool.hpp: `Bool`, one signed byte that is UNKNOWN, F or T. A byte is its bit pattern.
use pensar.Base.{ℕ, Bool, if◌then◌else◌, ◌==◌}

pub record TriBool : Type 0 where
  pub mvalue : ℕ

abbrev pub unknown : TriBool
unknown = record { mvalue = 255 }

abbrev pub tri_false : TriBool
tri_false = record { mvalue = 0 }

abbrev pub tri_true : TriBool
tri_true = record { mvalue = 1 }

-- The conversions from and to `bool`, and `operator==`.
abbrev pub of_bool : Bool → TriBool
of_bool b = if b then tri_true else tri_false

abbrev pub to_bool : TriBool → Bool
to_bool b = b.mvalue == 1

abbrev pub tri_eq : TriBool → TriBool → Bool
tri_eq a b = a.mvalue == b.mvalue
