-- ===== src/Analytics/Periods/Comparison.antt =====
-- The window a period is compared with: it lies before the period and is not longer.
use mint_flow.Prelude.{
  ◌+◌, ◌-◌, ◌≤◌, ◌<◌, ◌≡◌, ◌⊎◌, refl, sym, ◌∙◌, ap, true, false, arith, ◌&&◌, Bool-cases, Option,
  none, some, inl, inr, ltb, ◌==◌, if_false,
}
use mint_flow.Prelude.Result.{ok, bind_ok}
use mint_flow.Calendar.{
  Date, date_lt, to_ordinal, previous_day, plus_days, minus_days, days_before_year,
}
use mint_flow.Calendar.Ordinal.{IsDate, days_in_month-low}
use mint_flow.Calendar.Days.{
  previous_over, previous_year, december, not_before-le, previous_day-IsDate,
  to_ordinal-previous_day, plus_days-IsDate, to_ordinal-plus_days, year_from, year_to,
  minus_days-lem,
}
use mint_flow.Analytics.Periods.{
  DashboardPeriod, ComparisonWindows, days, make_period, min_date, last_day_of_month,
  first_day_of_month, first_day_of_previous_month, previous_of_month, previous_of_length,
  previous_window, compared, comparison_windows, stays_in_one_month,
}
use mint_flow.Analytics.Periods.Buckets.{
  last_day_of_month-IsDate, last_day_of_month-later, min_date-cases,
}
use mint_flow.Analytics.Periods.Valid.{IsPeriod, make_period-IsPeriod, part-IsPeriod, year_order}

-- a window before `current`, not longer than it, and of a year from 2000 on if `current` is of a later one
pub record IsWindow (current : DashboardPeriod) (window : Date × Date) : Type 0 where
  pub from_date : IsDate window.0
  pub to_date : IsDate window.1
  pub in_order : to_ordinal window.0 ≤ to_ordinal window.1
  pub before : to_ordinal window.1 < to_ordinal current.date_from
  pub not_longer :
      to_ordinal window.1 + to_ordinal current.date_from
      ≤ to_ordinal window.0 + to_ordinal current.date_to
  pub reached : 2001 ≤ current.date_from.year → 2000 ≤ window.0.year

first_day-IsDate : {d : Date} → IsDate d → IsDate (first_day_of_month d)
first_day-IsDate {d} v =
    let low = days_in_month-low d.year d.month in
    record {
      year_in = v.year_in;
      month_low = v.month_low;
      month_high = v.month_high;
      day_low = omega arith;
      day_high = omega arith;
    }

first_day-earlier : {d : Date} → IsDate d → to_ordinal (first_day_of_month d) ≤ to_ordinal d
unfolding to_ordinal
first_day-earlier v = let low = v.day_low in omega arith

-- the day before the first of a month is the last of its month
last-previous :
    (d : Date)
    → last_day_of_month (first_day_of_month (previous_day (first_day_of_month d)))
      ≡ previous_day (first_day_of_month d)
unfolding last_day_of_month
last-previous d = elim (Bool-cases (ltb 1 d.month)) [
  | inl h ↦ rw (previous_over (first_day_of_month d) refl h) refl
  | inr h ↦ rw (previous_year (first_day_of_month d) refl h, december (d.year - 1)) refl
]

-- a part of the earlier month that is no longer than the period
part-IsWindow :
    (p : DashboardPeriod)
    → IsPeriod p
    → (s last : Date) → IsDate s
    → IsDate last
    → to_ordinal s ≤ to_ordinal last
    → to_ordinal last < to_ordinal p.date_from
    → (2001 ≤ p.date_from.year → 2000 ≤ s.year)
    → IsWindow p (s, min_date (plus_days s (days p - 1)) last)
unfolding days
part-IsWindow p v s last vs vl le before reached =
    let n = days p - 1 in
    let vp = plus_days-IsDate s vs n in
    let at = to_ordinal-plus_days s vs n in
    let order = v.in_order in
    elim (min_date-cases (plus_days s n) last vp vl) [
      | inl (e, h) ↦ rw e (record {
        from_date = vs;
        to_date = vp;
        in_order = omega arith;
        before = omega arith;
        not_longer = omega arith;
        reached = reached;
      })
      | inr (e, h) ↦ rw e (record {
        from_date = vs;
        to_date = vl;
        in_order = le;
        before = before;
        not_longer = omega arith;
        reached = reached;
      })
    ]

-- years are at least 365 days long
year_2001 : days_before_year 2001 ≡ days_before_year 2000 + 366
unfolding days_before_year
year_2001 = refl

year_2000 : 2000 ≤ days_before_year 2000
unfolding days_before_year
year_2000 = omega arith

previous_of_month-IsWindow : (p : DashboardPeriod) → IsPeriod p → IsWindow p (previous_of_month p)
unfolding previous_of_month first_day_of_previous_month
previous_of_month-IsWindow p v =
    let d = p.date_from in
    let f = first_day_of_month d in
    let vf = first_day-IsDate v.from_date in
    let year = v.from_year in
    let e = previous_day f in
    let ve = previous_day-IsDate vf (omega arith) in
    let step = to_ordinal-previous_day vf (omega arith) in
    let early = first_day-earlier v.from_date in
    let early' = first_day-earlier ve in
    part-IsWindow p v (first_day_of_month e) (last_day_of_month (first_day_of_month e))
      (first_day-IsDate ve) (last_day_of_month-IsDate (first_day-IsDate ve))
      (last_day_of_month-later (first_day-IsDate ve))
      (omega (arith, ap to_ordinal (last-previous d)))
      (λ late.
        let far = year_to 2001 f vf (omega arith) late in
        let far' = year_2001 in year_from 2000 e ve (omega arith))

previous_of_length-IsWindow : (p : DashboardPeriod) → IsPeriod p → IsWindow p (previous_of_length p)
unfolding previous_of_length days
previous_of_length-IsWindow p v =
    let d = p.date_from in
    let year = v.from_year in
    let order = v.in_order in
    let short = v.short in
    let low = year_to 2000 d v.from_date (omega arith) year in
    let enough = year_2000 in
    let n = days p - 1 in
    let vt = previous_day-IsDate v.from_date (omega arith) in
    let step = to_ordinal-previous_day v.from_date (omega arith) in
    let (vs, back) = minus_days-lem (previous_day d) vt n (omega arith) in
    record {
      from_date = vs;
      to_date = vt;
      in_order = omega arith;
      before = omega arith;
      not_longer = omega arith;
      reached = λ late.
          let far = year_to 2001 d v.from_date (omega arith) late in
          let far' = year_2001 in year_from 2000 (minus_days (previous_day d) n) vs (omega arith);
    }

previous_window-IsWindow : (p : DashboardPeriod) → IsPeriod p → IsWindow p (previous_window p)
unfolding previous_window
previous_window-IsWindow p v = elim (Bool-cases (p.date_from.day == 1 && stays_in_one_month p)) [
  | inl h ↦ rw h (previous_of_month-IsWindow p v)
  | inr h ↦ rw h (previous_of_length-IsWindow p v)
]

-- the period up to today
IsClipped : DashboardPeriod → Date → DashboardPeriod → Type 0
IsClipped p today current =
    (current.date_from ≡ p.date_from)
    × (to_ordinal current.date_to ≤ to_ordinal today)
    × ((current.date_to ≡ today) ⊎ (current.date_to ≡ p.date_to))

-- what the comparison of a current window amounts to
Outcome : DashboardPeriod → Option ComparisonWindows → Type 0
Outcome current none = current.date_from.year ≡ 2000
Outcome current (some w) =
    (w.current ≡ current)
    × IsPeriod w.previous
    × (to_ordinal w.previous.date_to < to_ordinal current.date_from)
    × (days w.previous ≤ days current)

compared_ok :
    (current : DashboardPeriod) (a b : Date) {p : DashboardPeriod}
    → ltb a.year 2000 ≡ false
    → make_period a b ≡ ok p
    → compared current (a, b) ≡ ok (some (record { current = current; previous = p }))
unfolding compared
compared_ok current a b h e = if_false _ _ h ∙ bind_ok _ e

compared-lem :
    (current : DashboardPeriod)
    → IsPeriod current
    → (window : Date × Date) → IsWindow current window
    → (r : Option ComparisonWindows) × (compared current window ≡ ok r) × Outcome current r
unfolding compared Outcome days
compared-lem current v (a, b) w = elim (Bool-cases (ltb a.year 2000)) [
  | inl h ↦ let reached = w.reached in let year = v.from_year in (none, rw h refl, ground arith)
  | inr h ↦
      let before = w.before in
      let not_longer = w.not_longer in
      let short = v.short in
      let order = v.in_order in
      let order' = w.in_order in
      let year' = year_order b current.date_to w.to_date v.to_date (omega arith) in
      let year = v.to_year in
      let vp : IsPeriod (record { date_from = a; date_to = b }) = record {
        from_date = w.from_date;
        to_date = w.to_date;
        in_order = w.in_order;
        short = omega arith;
        from_year = ground arith;
        to_year = omega arith;
      } in
      (
        some (record { current = current; previous = record { date_from = a; date_to = b } }),
        compared_ok current a b h (make_period-IsPeriod vp),
        (refl, vp, before, omega arith),
      )
]

clipped :
    (p : DashboardPeriod)
    → IsPeriod p
    → (today : Date) → IsDate today
    → date_lt today p.date_from ≡ false
    → let current : DashboardPeriod = record {
      date_from = p.date_from;
      date_to = min_date p.date_to today;
    } in
      IsPeriod current × IsClipped p today current
unfolding IsClipped
clipped p v today vt h =
    let from = not_before-le today p.date_from vt v.from_date h in
    let order = v.in_order in
    elim (min_date-cases p.date_to today v.to_date vt) [
      | inl (e, le) ↦ rw e (v, (refl, le, inr refl))
      | inr (e, le) ↦ rw e (
        part-IsPeriod v p.date_from today v.from_date vt (omega arith) from le,
        (refl, omega arith, inl refl),
      )
    ]

-- Without comparison the period starts after today or in the year 2000. With one, the current
-- window is the period up to today, and the other is a valid period that ends before it and is not
-- longer.
unfoldable pub AreComparable : DashboardPeriod → Date → Option ComparisonWindows → Type 0
unfolding date_lt IsClipped days to_ordinal
AreComparable p today none = (date_lt today p.date_from ≡ true) ⊎ (p.date_from.year ≡ 2000)
AreComparable p today (some w) =
    IsClipped p today w.current
    × IsPeriod w.previous
    × (to_ordinal w.previous.date_to < to_ordinal w.current.date_from)
    × (days w.previous ≤ days w.current)

-- For a valid period and a date `today` the windows are found without an exception. There is none
-- only if the period starts after today or in the year 2000; else the current window is the
-- period up to today, and the previous one a valid period that ends before it and is not longer.
pub comparison_windows-AreComparable :
    (p : DashboardPeriod)
    → IsPeriod p
    → (today : Date) → IsDate today
    → (r : Option ComparisonWindows) × (comparison_windows p today ≡ ok r) × AreComparable p today r
unfolding comparison_windows AreComparable Outcome
comparison_windows-AreComparable p v today vt = elim (Bool-cases (date_lt today p.date_from)) [
  | inl h ↦ (none, rw h refl, inl h)
  | inr h ↦
      let current : DashboardPeriod = record {
        date_from = p.date_from;
        date_to = min_date p.date_to today;
      } in
      let (vc, clip) = clipped p v today vt h in
      let (r, e, out) =
        compared-lem current vc (previous_window current) (previous_window-IsWindow current vc) in
      (r, rw (h, make_period-IsPeriod vc) e, told r clip out)
]
  where
    told :
        {current : DashboardPeriod} (r : Option ComparisonWindows)
        → IsClipped p today current
        → Outcome current r
        → AreComparable p today r
    told none (same, _, _) out = inr (ap (λ d. d.year) (sym same) ∙ out)
    told (some w) clip (e, vp, before, short) = rw e (clip, vp, before, short)
