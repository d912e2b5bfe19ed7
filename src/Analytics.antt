-- ===== src/Analytics.antt =====
-- src/application/analytics: how long a device was observed, and when. Times are UTC-naive
-- microseconds, and so are the seconds of the source; the rounding of its floats is left out.
pub mod Bucketing
pub mod Continuity
pub mod Observed
pub mod Pipeline
pub mod Sampling
use tlrs.Prelude.{ℕ, ◌+◌, ◌-◌, ◌*◌, max, Bool, ◌||◌, leb}

-- Microseconds of a second
abbrev pub micros : ℕ
micros = 1_000_000

-- `abs(a - b)`
abbrev pub distance : ℕ → ℕ → ℕ
distance a b = (a - b) + (b - a)

-- `isclose(a, b, rel_tol=1e-9, abs_tol=1e-6)`, in microseconds
abbrev pub is_close : ℕ → ℕ → Bool
is_close a b = leb (distance a b) 1 || leb (distance a b * 1_000_000_000) (max a b)
