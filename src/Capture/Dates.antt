-- ===== src/Capture/Dates.antt =====
-- src/mintflow/application/capture/transaction_dates.py
use mint_flow.Prelude.{Bool}
use mint_flow.Prelude.Datetime.{Datetime, astimezone_utc}
use mint_flow.Prelude.Result.{Result, ok, ◌>>◌}
use mint_flow.Calendar.{date_le, date_lt, next_day}
use mint_flow.Domain.Errors.{ValueError, require_aware}
use mint_flow.Domain.User.Preferences.{Zones, Timezone}
use mint_flow.Domain.Values.{TransactionDate}

-- The tolerance is one day.
unfoldable pub is_within_future_tolerance :
    ⦃z : Zones⦄ → TransactionDate → Datetime → Timezone → Result ValueError Bool
unfolding date_lt next_day
is_within_future_tolerance ⦃z⦄ transaction_date now timezone = do
  require_aware now
  let local_today = z.local_date timezone.value (astimezone_utc now)
  ok (date_le transaction_date.value (next_day local_today))
