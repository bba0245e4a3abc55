-- ===== src/StopWatch.antt =====
-- cpp/src/stop_watch.hpp: `StopWatch`, over a clock that counts nanoseconds: what it reads is an
-- argument of each operation that reads it. A difference of two times is a signed number of 64 bits,
-- as its bit pattern.
pub mod Elapsed
pub mod Formatted
mod Examples
use pensar.Base.{ℕ, ◌+◌, ◌-◌, ◌*◌, ◌/◌, ◌%◌, ◌^◌, Bool, true, false, if◌then◌else◌, ltb}

pub record StopWatch : Type 0 where
  pub mstart : ℕ
  pub mlast : ℕ
  pub mmark : ℕ
  pub mrunning : Bool

difference : ℕ → ℕ → ℕ
difference a b = ((a + 2 ^ 64) - b) % 2 ^ 64

pub new_stop_watch : Bool → ℕ → StopWatch
new_stop_watch start_now now = record {
  mstart = if start_now then now else 0;
  mlast = 0;
  mmark = 0;
  mrunning = start_now;
}

pub start : ℕ → StopWatch → StopWatch
start now w = record w { mstart = now; mrunning = true }

pub reset : ℕ → StopWatch → StopWatch
reset now w = record w { mstart = now; mlast = 0; mrunning = true }

pub stop : ℕ → StopWatch → StopWatch
stop now w = record w { mlast = now; mrunning = false }

pub mark : ℕ → StopWatch → StopWatch
mark now w = record w { mmark = now }

pub elapsed : ℕ → StopWatch → ℕ
unfolding difference
elapsed now w = if w.mrunning then difference now w.mstart else difference w.mlast w.mstart

pub elapsed_since_mark : ℕ → StopWatch → ℕ
unfolding difference
elapsed_since_mark now w = if w.mrunning then difference now w.mmark else difference w.mlast w.mmark

-- The fields of `elapsed_formatted`; `warned` says that the message on the error stream was written.
pub record Fields : Type 0 where
  pub hours : ℕ
  pub minutes : ℕ
  pub seconds : ℕ
  pub milliseconds : ℕ
  pub microseconds : ℕ
  pub nanoseconds : ℕ
  pub warned : Bool

-- The divisions of `elapsed_formatted`, of a time that is not negative.
unfoldable pub split_elapsed : ℕ → Fields
split_elapsed elapsed_nanoseconds =
    let hours = elapsed_nanoseconds / 3600000000000 in
    let left₁ = elapsed_nanoseconds - hours * 3600000000000 in
    let minutes = left₁ / 60000000000 in
    let left₂ = left₁ - minutes * 60000000000 in
    let seconds = left₂ / 1000000000 in
    let left₃ = left₂ - seconds * 1000000000 in
    let milliseconds = left₃ / 1000000 in
    let left₄ = left₃ - milliseconds * 1000000 in
    let microseconds = left₄ / 1000 in
    let left₅ = left₄ - microseconds * 1000 in
    record {
      hours = hours;
      minutes = minutes;
      seconds = seconds;
      milliseconds = milliseconds;
      microseconds = microseconds;
      nanoseconds = left₅;
      warned = ltb 1000 milliseconds;
    }
