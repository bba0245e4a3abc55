-- ===== src/Command/Stream/Unknown.antt =====
-- A command of a class that the registry does not know.
use pensar.Base.{ℕ, suc, ◌≡◌, ap, ◌∙◌, Option, none, List, ◌++◌, length}
use pensar.BinaryBuffer.{BinaryBuffer}
use pensar.BinaryBuffer.Cursor.{At, read-At}
use pensar.ObjectFormat.{read_into}
use pensar.Command.{Command, Slots}
use pensar.Command.Stream.{
  Classes, create, made_then, ReadResult, store_then, slots_read, read_next, read_slots,
}

module _ (k : Classes) (registry : List (List ℕ × Command)) where
  -- The loop of a read stops at a command whose class the registry does not know: the slots that
  -- were filled before stay, this one and those behind it are as they were, and of the buffer no
  -- more is read than the class information.
  pub read_slots-unknown :
      (read_one : Command → BinaryBuffer → ReadResult) (left i : ℕ) (slots : Slots)
      (info rest : List ℕ) (b : BinaryBuffer)
      → length info ≡ k.info_size
      → create k registry info ≡ none
      → At b (info ++ rest)
      → (b' : BinaryBuffer) × (read_slots k registry read_one (suc left) i slots b
          ≡ slots_read slots b')
        × At b' rest
  unfolding read_slots read_next read_into store_then
  read_slots-unknown read_one left i slots info rest b size missing at =
      let (b', eq, at') = read-At k.info_size info rest b size at in
      (
        b',
        ap
              (λ (r : BinaryBuffer × Option (List ℕ)).
                store_then (made_then (create k registry (read_into k.blank r.1)) r.0 read_one) i
                  slots (read_slots k registry read_one left (suc i)))
              eq
            ∙ ap
                (λ o.
                  store_then (made_then o b' read_one) i slots
                    (read_slots k registry read_one left (suc i)))
                missing,
        at',
      )
