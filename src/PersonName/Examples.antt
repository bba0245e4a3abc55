-- ===== src/PersonName/Examples.antt =====
-- Names written and read, and the theorem at a concrete name.
use pensar.Base.{false, ℕ, ◌≡◌, refl, List, [], ◌∷◌, ◌++◌, inr, arith}
use pensar.Base.Outcome.{done}
use pensar.FixedString.{FixedString, str, until_null, empty, str_length}
use pensar.PersonName.{PersonName, InStream, write_name, read_name}
use pensar.PersonName.Streams.{read_name-write_name}

abbrev fixed : List ℕ → FixedString
fixed s = record { chars = s ++ (0 ∷ 0 ∷ []) }

-- `Ana Sol`, without a middle name.
abbrev ana : PersonName
ana = record {
  mfirst = fixed (b'A' ∷ b'n' ∷ b'a' ∷ []);
  mmiddle = fixed [];
  mlast = fixed (b'S' ∷ b'o' ∷ b'l' ∷ []);
}

abbrev blank : PersonName
blank = record { mfirst = fixed []; mmiddle = fixed []; mlast = fixed [] }

written : write_name ana ≡ b'A' ∷ b'n' ∷ b'a' ∷ b' ' ∷ b'S' ∷ b'o' ∷ b'l' ∷ []
unfolding write_name str empty until_null str_length
written = refl

-- The last name comes back as the middle name.
read_name-write_name_example :
    (r : PersonName) × (is : InStream) × (read_name
        (record { left = write_name ana; failed = false })
        blank
      ≡ done (r, is))
    × (str r.mfirst ≡ b'A' ∷ b'n' ∷ b'a' ∷ [])
    × (str r.mmiddle ≡ b'S' ∷ b'o' ∷ b'l' ∷ [])
    × (str r.mlast ≡ [])
unfolding str empty until_null str_length
read_name-write_name_example =
    read_name-write_name ana blank
      (omega arith, omega arith, ((refl, refl), ((refl, refl), ((refl, refl), tt))))
      (omega arith, omega arith, ((refl, refl), ((refl, refl), ((refl, refl), tt)))) (inr refl)
