-- ===== src/ObjectFormat/Examples.antt =====
-- Objects written and read, and the theorems at concrete objects.
use pensar.Base.{ℕ, ◌≡◌, refl, List, [], ◌∷◌}
use pensar.BinaryBuffer.{BinaryBuffer, new_buffer}
use pensar.ObjectFormat.{Part, write_object, read_object}
use pensar.ObjectFormat.RoundTrip.{read_object-write_object}

-- An identifier, and a part of two bytes.
abbrev base_part : Part
base_part = record { info = 1 ∷ 1 ∷ []; data_bytes = 42 ∷ [] }

abbrev own_part : Part
own_part = record { info = 2 ∷ 7 ∷ []; data_bytes = 5 ∷ 6 ∷ [] }

-- An object of the same class that holds zeroes.
abbrev empty_object : List Part
empty_object =
    record { info = 1 ∷ 1 ∷ []; data_bytes = 0 ∷ [] }
    ∷ record { info = 2 ∷ 7 ∷ []; data_bytes = 0 ∷ 0 ∷ [] }
    ∷ []

abbrev blank : List ℕ
blank = 0 ∷ 0 ∷ []

-- A buffer that stands before the information of another class.
abbrev other_class : BinaryBuffer
other_class = record { buffer = 9 ∷ 9 ∷ 5 ∷ 6 ∷ []; write_pos = 4; read_pos = 0 }

read_back :
    (read_object blank empty_object (write_object (base_part ∷ own_part ∷ []) (new_buffer 64))).0
    ≡ base_part ∷ own_part ∷ []
unfolding read_object write_object new_buffer
read_back = refl

read_object-write_object_example :
    (read_object blank empty_object (write_object (base_part ∷ own_part ∷ []) (new_buffer 64))).0
    ≡ base_part ∷ own_part ∷ []
read_object-write_object_example =
    read_object-write_object blank (base_part ∷ own_part ∷ []) empty_object 64
      (refl, refl, (refl, refl, tt))
