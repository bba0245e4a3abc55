-- ===== src/OpenMode/Examples.antt =====
-- The constants of `OpenMode`, and their texts.
use pensar.Base.{◌≡◌, refl, [], ◌∷◌}
use pensar.Base.Outcome.{done, throws, library_error}
use pensar.OpenMode.{bin_rw, text_rwa, bin_mode, to_string, bin_read}

checked : bin_mode bin_rw ≡ done bin_rw
unfolding bin_mode
checked = refl

refused : bin_mode text_rwa ≡ throws library_error
unfolding bin_mode
refused = refl

printed :
    to_string bin_read
    ≡ b'i' ∷ b'n' ∷ b' ' ∷ b'|' ∷ b' ' ∷ b'b' ∷ b'i' ∷ b'n' ∷ b'a' ∷ b'r' ∷ b'y' ∷ []
unfolding to_string
printed = refl
