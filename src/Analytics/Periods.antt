-- ===== src/Analytics/Periods.antt =====
-- src/mintflow/application/analytics/periods.py
pub mod Valid
pub mod Tiling
pub mod Buckets
pub mod Comparison
use mint_flow.Prelude.{
  ℕ, zero, suc, ◌+◌, ◌-◌, Bool, ◌||◌, ◌&&◌, Option, none, some, List, [], ◌∷◌, ltb, leb, ◌==◌,
  if◌then◌else◌,
}
use mint_flow.Prelude.Datetime.{Datetime, is_aware, astimezone_utc}
use mint_flow.Prelude.Result.{Result, ok, err, ◌>>=◌, ◌>>◌, require, raise_if}
use mint_flow.Calendar.{
  Date, days_in_month, date_lt, next_day, previous_day, plus_days, minus_days, to_ordinal,
}
use mint_flow.Analytics.Errors.{
  AnalyticsError, period_reversed, period_too_long, period_years, naive_now, out_of_rounds,
}
use mint_flow.Domain.User.Preferences.{Zones, Timezone}

abbrev pub max_period_days : ℕ
max_period_days = 366

abbrev pub max_daily_bucket_period_days : ℕ
max_daily_bucket_period_days = 31

abbrev pub min_year : ℕ
min_year = 2000

abbrev pub max_year : ℕ
max_year = 2100

pub record DashboardPeriod : Type 0 where
  pub date_from : Date
  pub date_to : Date

-- `DashboardPeriod.days`; of a period that ends before it starts nothing asks for the days
unfoldable pub days : DashboardPeriod → ℕ
unfolding to_ordinal
days p = (to_ordinal p.date_to + 1) - to_ordinal p.date_from

-- `DashboardPeriod(date_from=…, date_to=…)`
unfoldable pub make_period : Date → Date → Result AnalyticsError DashboardPeriod
unfolding date_lt days
make_period from to = do
  raise_if (date_lt to from) period_reversed
  raise_if (ltb max_period_days (days (record { date_from = from; date_to = to }))) period_too_long
  raise_if (ltb from.year min_year || ltb max_year to.year) period_years
  ok (record { date_from = from; date_to = to })

pub data BucketGranularity : Type 0 where
  day month : BucketGranularity

pub record ChartBuckets : Type 0 where
  pub granularity : BucketGranularity
  pub buckets : List DashboardPeriod

pub record ComparisonWindows : Type 0 where
  pub current : DashboardPeriod
  pub previous : DashboardPeriod

unfoldable pub local_today : ⦃z : Zones⦄ → Datetime → Timezone → Result AnalyticsError Date
local_today ⦃z⦄ now timezone = do
  require (is_aware now) naive_now
  ok (z.local_date timezone.value (astimezone_utc now))

unfoldable pub last_day_of_month : Date → Date
unfolding days_in_month
last_day_of_month d = record d { day = days_in_month d.year d.month }

abbrev pub first_day_of_month : Date → Date
first_day_of_month d = record d { day = 1 }

unfoldable pub first_day_of_previous_month : Date → Date
unfolding previous_day
first_day_of_previous_month d = first_day_of_month (previous_day (first_day_of_month d))

unfoldable pub default_period :
    ⦃z : Zones⦄ → Datetime → Timezone → Result AnalyticsError DashboardPeriod
unfolding local_today make_period last_day_of_month
default_period now timezone = do
  today ← local_today now timezone
  make_period (first_day_of_month today) (last_day_of_month today)

-- `min` of two dates
unfoldable pub min_date : Date → Date → Date
unfolding date_lt
min_date a b = if date_lt b a then b else a

-- a day's bucket for each offset from `offset` on, `count` of them
unfoldable pub day_buckets : Date → ℕ → ℕ → Result AnalyticsError (List DashboardPeriod)
unfolding make_period plus_days
day_buckets start offset zero = ok []
day_buckets start offset (suc count) = do
  bucket ← make_period (plus_days start offset) (plus_days start offset)
  rest ← day_buckets start (suc offset) count
  ok (bucket ∷ rest)

abbrev month_end : Date → Date → Date
unfolding min_date last_day_of_month
month_end start to = min_date (last_day_of_month start) to

-- the `while` loop, in at most `fuel` rounds
unfoldable pub month_buckets : ℕ → Date → Date → Result AnalyticsError (List DashboardPeriod)
unfolding make_period month_end next_day date_lt
month_buckets zero start to = err out_of_rounds
month_buckets (suc fuel) start to =
    let rest = month_buckets fuel (next_day (month_end start to)) to in
    if date_lt to start
    then ok []
    else (make_period start (month_end start to) >>= λ bucket.
        rest >>= λ buckets. ok (bucket ∷ buckets))

unfoldable pub chart_buckets : DashboardPeriod → Result AnalyticsError ChartBuckets
unfolding days day_buckets month_buckets
chart_buckets period =
    if leb (days period) max_daily_bucket_period_days
    then (day_buckets period.date_from 0 (days period) >>= λ buckets.
        ok (record { granularity = day; buckets = buckets }))
    else (month_buckets (days period + 1) period.date_from period.date_to >>= λ buckets.
        ok (record { granularity = month; buckets = buckets }))

unfoldable pub previous_of_month : DashboardPeriod → Date × Date
unfolding first_day_of_previous_month min_date plus_days last_day_of_month days
previous_of_month current =
    let start = first_day_of_previous_month current.date_from in
    (start, min_date (plus_days start (days current - 1)) (last_day_of_month start))

unfoldable pub previous_of_length : DashboardPeriod → Date × Date
unfolding previous_day minus_days days
previous_of_length current =
    let to = previous_day current.date_from in (minus_days to (days current - 1), to)

abbrev stays_in_one_month : DashboardPeriod → Bool
stays_in_one_month p = p.date_from.year == p.date_to.year && p.date_from.month == p.date_to.month

abbrev previous_window : DashboardPeriod → Date × Date
unfolding previous_of_month previous_of_length
previous_window current =
    if current.date_from.day == 1 && stays_in_one_month current
    then previous_of_month current
    else previous_of_length current

abbrev compared : DashboardPeriod → Date × Date → Result AnalyticsError (Option ComparisonWindows)
unfolding make_period
compared current window =
    if ltb window.0.year min_year
    then ok none
    else (make_period window.0 window.1 >>= λ previous.
        ok (some (record { current = current; previous = previous })))

unfoldable pub comparison_windows :
    DashboardPeriod → Date → Result AnalyticsError (Option ComparisonWindows)
unfolding make_period min_date date_lt previous_window compared
comparison_windows period today =
    if date_lt today period.date_from
    then ok none
    else (make_period period.date_from (min_date period.date_to today) >>= λ current.
        compared current (previous_window current))
