-- ===== src/Prelude/Datetime.antt =====
-- Python's `datetime`, as far as the sources look into it: a value has a UTC offset or has none.
-- An instant is a number of microseconds; an aware value is an instant and its offset in minutes.
use Prim.Native.Nat.{ℕ}
use mathlib.Core.Bool.{Bool, true, false}
use mint_flow.Prelude.Int.{ℤ}

-- An aware datetime in UTC, which is what the domain stores.
abbrev pub Instant : Type 0
Instant = ℕ

pub data Datetime : Type 0 where
  naive : ℕ → Datetime
  aware : Instant → ℤ → Datetime

-- `now.utcoffset() is not None`
abbrev pub is_aware : Datetime → Bool
is_aware (naive _) = false
is_aware (aware _ _) = true

-- `now.astimezone(UTC)`. Of a naive value Python takes the system's zone, here UTC; the sources
-- refuse a naive value before they convert it.
abbrev pub astimezone_utc : Datetime → Instant
astimezone_utc (naive t) = t
astimezone_utc (aware t _) = t
