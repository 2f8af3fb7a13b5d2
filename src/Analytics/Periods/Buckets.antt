-- ===== src/Analytics/Periods/Buckets.antt =====
-- The chart's buckets: the loop ends, no bucket is refused, and each day of the period is in one.
use mint_flow.Prelude.{
  ℕ, zero, suc, ◌+◌, ◌≤◌, ◌<◌, ◌≡◌, ◌⊎◌, refl, ◌∙◌, arith, Bool-cases, inl, inr, List, [], ◌∷◌, leb,
  if◌then◌else◌,
}
use mint_flow.Prelude.Result.{ok}
use mint_flow.Calendar.{Date, date_lt, to_ordinal, next_day, plus_days}
use mint_flow.Calendar.Ordinal.{IsDate, days_in_month-low, date_lt-to_ordinal}
use mint_flow.Calendar.Days.{
  date_lt_iff, not_before-le, next_day-IsDate, to_ordinal-next_day, plus_days-IsDate,
  to_ordinal-plus_days,
}
use mint_flow.Analytics.Periods.{
  DashboardPeriod, ChartBuckets, days, min_date, last_day_of_month, month_end, day_buckets,
  month_buckets, chart_buckets, max_daily_bucket_period_days, day, month,
}
use mint_flow.Analytics.Periods.Valid.{IsPeriod, make_period-IsPeriod, part-IsPeriod}
use mint_flow.Analytics.Periods.Tiling.{
  inside, inside_iff, count_in, Tiles, Tiles-at, count_in-Tiles,
}

pub last_day_of_month-IsDate : {d : Date} → IsDate d → IsDate (last_day_of_month d)
unfolding last_day_of_month
last_day_of_month-IsDate {d} v =
    let low = days_in_month-low d.year d.month in
    record {
      year_in = v.year_in;
      month_low = v.month_low;
      month_high = v.month_high;
      day_low = omega arith;
      day_high = omega arith;
    }

pub last_day_of_month-later :
    {d : Date} → IsDate d → to_ordinal d ≤ to_ordinal (last_day_of_month d)
unfolding last_day_of_month to_ordinal
last_day_of_month-later {d} v = let high = v.day_high in omega arith

pub min_date-cases :
    (a b : Date)
    → IsDate a
    → IsDate b
    → ((min_date a b ≡ a) × to_ordinal a ≤ to_ordinal b)
      ⊎ ((min_date a b ≡ b) × to_ordinal b ≤ to_ordinal a)
unfolding min_date
min_date-cases a b va vb =
    let test = date_lt_iff b a vb va in
    elim (Bool-cases (date_lt b a)) [
      | inl h ↦ inr (rw h refl, ground arith)
      | inr h ↦ inl (rw h refl, ground arith)
    ]

-- a month's bucket ends within the month and within the period
month_end-lem :
    (start to : Date)
    → IsDate start
    → IsDate to
    → to_ordinal start ≤ to_ordinal to
    → IsDate (month_end start to)
      × (to_ordinal start ≤ to_ordinal (month_end start to))
      × (to_ordinal (month_end start to) ≤ to_ordinal to)
unfolding month_end to_ordinal
month_end-lem start to vs vt le =
    let last = last_day_of_month-IsDate vs in
    let late = last_day_of_month-later vs in
    elim (min_date-cases (last_day_of_month start) to last vt) [
      | inl (e, h) ↦ rw e (last, late, h)
      | inr (e, h) ↦ rw e (vt, le, omega arith)
    ]

-- each daily bucket is a period, and they stand one after another
day_buckets-Tiles :
    {p : DashboardPeriod}
    → IsPeriod p
    → (offset count : ℕ) → to_ordinal p.date_from + offset + count ≤ to_ordinal p.date_to + 1
    → (bs : List DashboardPeriod) × (day_buckets p.date_from offset count ≡ ok bs)
      × Tiles (to_ordinal p.date_from + offset) bs (to_ordinal p.date_from + offset + count)
unfolding day_buckets
day_buckets-Tiles {p} v offset zero le = ([], refl, omega arith)
day_buckets-Tiles {p} v offset (suc count) le =
    let (rest, e, t) = day_buckets-Tiles {p = p} v (suc offset) count (omega arith) in
    let d = plus_days p.date_from offset in
    let vd = plus_days-IsDate p.date_from v.from_date offset in
    let at = to_ordinal-plus_days p.date_from v.from_date offset in
    let part = part-IsPeriod v d d vd vd (omega arith) (omega arith) (omega arith) in
    (
      record { date_from = d; date_to = d } ∷ rest,
      rw (make_period-IsPeriod part, e) refl,
      (part, at, Tiles-at rest (omega arith) (omega arith) t),
    )

-- Each round starts a later month, so a round for each day of the period is enough.
month_buckets-Tiles :
    {p : DashboardPeriod}
    → IsPeriod p
    → (fuel : ℕ) (start : Date) → IsDate start
    → to_ordinal p.date_from ≤ to_ordinal start
    → to_ordinal start ≤ to_ordinal p.date_to + 1
    → to_ordinal p.date_to + 1 < to_ordinal start + fuel
    → (bs : List DashboardPeriod) × (month_buckets fuel start p.date_to ≡ ok bs)
      × Tiles (to_ordinal start) bs (to_ordinal p.date_to + 1)
unfolding month_buckets
month_buckets-Tiles {p} v zero start vs low high enough = absurd (omega arith)
month_buckets-Tiles {p} v (suc fuel) start vs low high enough =
    elim (Bool-cases (date_lt p.date_to start)) [
      | inl h ↦
          let past = date_lt-to_ordinal p.date_to start v.to_date vs h in
          ([], rw h refl, omega arith)
      | inr h ↦
          let (ve, late, within) =
            month_end-lem start p.date_to vs v.to_date
              (not_before-le p.date_to start v.to_date vs h) in
          let end = month_end start p.date_to in
          let next = to_ordinal-next_day ve in
          let (rest, e, t) =
            month_buckets-Tiles v fuel (next_day end) (next_day-IsDate ve) (omega arith)
              (omega arith) (omega arith) in
          let part = part-IsPeriod v start end vs ve low late within in
          (
            record { date_from = start; date_to = end } ∷ rest,
            rw (h, make_period-IsPeriod part, e) refl,
            (part, refl, Tiles-at rest next refl t),
          )
    ]

-- The chart of a valid period is made, whatever its length, without an exception and within the
-- rounds that it is given, and its buckets fill the period one after another.
pub chart_buckets-Tiles :
    (p : DashboardPeriod)
    → IsPeriod p
    → (chart : ChartBuckets) × (chart_buckets p ≡ ok chart)
      × Tiles (to_ordinal p.date_from) chart.buckets (to_ordinal p.date_to + 1)
unfolding chart_buckets days
chart_buckets-Tiles p v =
    let order = v.in_order in
    elim (Bool-cases (leb (days p) max_daily_bucket_period_days)) [
      | inl h ↦
          let (bs, e, t) = day_buckets-Tiles v 0 (days p) (omega arith) in
          (
            record { granularity = day; buckets = bs },
            rw (h, e) refl,
            Tiles-at bs (omega arith) (omega arith) t,
          )
      | inr h ↦
          let (bs, e, t) =
            month_buckets-Tiles v (days p + 1) p.date_from v.from_date (omega arith) (omega arith)
              (omega arith) in
          (record { granularity = month; buckets = bs }, rw (h, e) refl, t)
    ]

-- For a valid period the chart is made, without an exception and within the rounds that its loop
-- is given. Each date of the period is in exactly one bucket, and each other date in none.
pub chart_buckets-partition :
    (p : DashboardPeriod)
    → IsPeriod p
    → (chart : ChartBuckets) × (chart_buckets p ≡ ok chart)
      × ((d : Date) → IsDate d → count_in d chart.buckets ≡ (if inside p d then 1 else 0))
chart_buckets-partition p v =
    let (chart, e, t) = chart_buckets-Tiles p v in
    (
      chart,
      e,
      λ d vd.
          let counted = count_in-Tiles d vd _ chart.buckets _ t in
          let test = inside_iff v vd in counted ∙ ground arith,
    )
