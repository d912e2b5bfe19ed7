-- ===== src/Model/Time.antt =====
-- Python's `datetime`. Instants are microseconds since the epoch; earlier ones are left out.
use tlrs.Prelude.{ℕ, Option, none, some}
use tlrs.Prelude.Int.{ℤ}

-- `aware utc offset` reads the wall clock `utc + offset`, and stands for the instant `utc`.
pub data DateTime : Type 0 where
  naive : ℕ → DateTime
  aware : ℕ → ℤ → DateTime

-- `value if value.tzinfo is None else value.astimezone(UTC).replace(tzinfo=None)`
unfoldable pub to_utc_naive : Option DateTime → Option ℕ
to_utc_naive none = none
to_utc_naive (some (naive t)) = some t
to_utc_naive (some (aware utc offset)) = some utc
