-- ===== src/StopWatch/Examples.antt =====
-- A time split into fields, and the theorems at concrete times.
use pensar.Base.{ℕ, ◌+◌, ◌*◌, ◌<◌, ◌≡◌, refl, some, List, [], ◌∷◌}
use pensar.StopWatch.{split_elapsed}
use pensar.Text.{pad}
use pensar.Text.Numbers.{pad_left0}
use pensar.StopWatch.Formatted.{elapsed_formatted, read_fields, elapsed_formatted-read}

minute_and_a_bit : (split_elapsed 61002003004).seconds ≡ 1
unfolding split_elapsed
minute_and_a_bit = refl

-- 02:03:04.005.006.007
formatted_text :
    elapsed_formatted 7384005006007
    ≡ some (
        b'0' ∷ b'2' ∷ b':' ∷ b'0' ∷ b'3' ∷ b':' ∷ b'0' ∷ b'4' ∷ b'.' ∷ b'0' ∷ b'0' ∷ b'5' ∷ b'.'
        ∷ b'0' ∷ b'0' ∷ b'6' ∷ b'.' ∷ b'0' ∷ b'0' ∷ b'7' ∷ [])
unfolding elapsed_formatted split_elapsed pad_left0 pad
formatted_text = refl

elapsed_formatted-read_example :
    (s : List ℕ) × (hours minutes seconds milliseconds microseconds nanoseconds : ℕ)
    × (elapsed_formatted 7384005006007 ≡ some s)
    × (read_fields 0 s ≡ hours ∷ minutes ∷ seconds ∷ milliseconds ∷ microseconds ∷ nanoseconds ∷ [])
    × (minutes < 60)
    × (seconds < 60)
    × (milliseconds < 1000)
    × (microseconds < 1000)
    × (nanoseconds < 1000)
    × (hours * 3600000000000
          + minutes * 60000000000
          + seconds * 1000000000
          + milliseconds * 1000000
          + microseconds * 1000
          + nanoseconds
        ≡ 7384005006007)
elapsed_formatted-read_example = elapsed_formatted-read 7384005006007
