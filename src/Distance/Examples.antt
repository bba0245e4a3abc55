-- ===== src/Distance/Examples.antt =====
-- Runs of the distances, and their theorems at concrete strings.
use pensar.Base.{ℕ, ◌≡◌, refl, List, [], ◌∷◌, length}
use pensar.Base.Outcome.{done}
use pensar.Distance.{distance, min_distance}
use pensar.Distance.Reference.{edits}
use pensar.Distance.Rows.{distance-edits}

-- `form`, `from` and `frog`
abbrev form : List ℕ
form = b'f' ∷ b'o' ∷ b'r' ∷ b'm' ∷ []

abbrev from : List ℕ
from = b'f' ∷ b'r' ∷ b'o' ∷ b'm' ∷ []

abbrev frog : List ℕ
frog = b'f' ∷ b'r' ∷ b'o' ∷ b'g' ∷ []

transposition : distance form from ≡ 1
unfolding distance
transposition = refl

nearest : min_distance form (frog ∷ from ∷ []) ≡ done from
unfolding min_distance
nearest = refl

distance-edits_example : distance form frog ≡ edits form frog (length form) (length frog)
distance-edits_example = distance-edits form frog
