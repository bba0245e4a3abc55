-- ===== src/StopWatch/Elapsed.antt =====
-- The time that a stop watch tells.
use pensar.Base.{ℕ, ◌+◌, ◌-◌, ◌*◌, ◌^◌, ◌≤◌, ◌<◌, ◌≡◌, false, arith}
use pensar.StopWatch.{StopWatch, difference, start, reset, stop, elapsed, split_elapsed}

-- The fields of a time are those of a clock: minutes and seconds below sixty, the three behind them
-- below a thousand; together they are the time; and the warning about the milliseconds is never
-- written.
pub split_elapsed-total :
    (t : ℕ)
    → let f = split_elapsed t in
      (f.minutes < 60)
      × (f.seconds < 60)
      × (f.milliseconds < 1000)
      × (f.microseconds < 1000)
      × (f.nanoseconds < 1000)
      × (f.hours * 3600000000000
            + f.minutes * 60000000000
            + f.seconds * 1000000000
            + f.milliseconds * 1000000
            + f.microseconds * 1000
            + f.nanoseconds
          ≡ t)
      × (f.warned ≡ false)
unfolding split_elapsed
split_elapsed-total t =
    (omega arith, omega arith, omega arith, omega arith, omega arith, omega arith, ground arith)

-- A watch that is started, or reset, at one time and stopped at another, tells the time between them
-- whenever it is asked; while it runs, it tells the time since its start.
pub elapsed-stop :
    (w : StopWatch) (a b c : ℕ)
    → a ≤ b
    → b < 2 ^ 63
    → (elapsed c (stop b (start a w)) ≡ b - a)
      × (elapsed c (stop b (reset a w)) ≡ b - a)
      × (elapsed b (start a w) ≡ b - a)
unfolding elapsed stop start reset difference
elapsed-stop w a b c h small = (omega arith, omega arith, omega arith)
