-- ===== src/Analytics/Periods/Valid.antt =====
-- What the constructor of a period checks, and the periods within a period.
use mint_flow.Prelude.{◌+◌, ◌-◌, ◌≤◌, ◌≡◌, refl, true, false, arith, Bool, ltb, ◌||◌}
use mint_flow.Prelude.Result.{ok, ok_injective, raise_if, ◌>>◌}
use mint_flow.Analytics.Errors.{period_reversed, period_too_long, period_years}
use mint_flow.Calendar.{Date, date_lt, to_ordinal}
use mint_flow.Calendar.Ordinal.{IsDate, date_lt-to_ordinal}
use mint_flow.Calendar.Days.{date_lt_iff}
use mint_flow.Analytics.Periods.{
  DashboardPeriod, days, make_period, max_period_days, min_year, max_year,
}

pub record IsPeriod (p : DashboardPeriod) : Type 0 where
  pub from_date : IsDate p.date_from
  pub to_date : IsDate p.date_to
  pub in_order : to_ordinal p.date_from ≤ to_ordinal p.date_to
  pub short : to_ordinal p.date_to + 1 ≤ to_ordinal p.date_from + 366
  pub from_year : 2000 ≤ p.date_from.year
  pub to_year : p.date_to.year ≤ 2100

-- years follow the day numbers
pub year_order : (a b : Date) → IsDate a → IsDate b → to_ordinal a ≤ to_ordinal b → a.year ≤ b.year
unfolding date_lt
year_order a b va vb le = let h = date_lt-to_ordinal b a vb va in ground arith

-- A returned period has the dates it is given, and all that the constructor checks.
pub make_period-eq-ok :
    (from to : Date) {p : DashboardPeriod}
    → IsDate from
    → IsDate to
    → make_period from to ≡ ok p
    → (p ≡ record { date_from = from; date_to = to }) × IsPeriod p
unfolding make_period days
make_period-eq-ok from to {p} vf vt h =
    let (a, b, c, same) =
      passed (date_lt to from) _ (ltb from.year min_year || ltb max_year to.year) h in
    let order = date_lt_iff to from vt vf in
    (
      same,
      rw same (record {
        from_date = vf;
        to_date = vt;
        in_order = ground arith;
        short = ground arith;
        from_year = ground arith;
        to_year = ground arith;
      }),
    )
  where
    passed :
        (a b c : Bool) {x : DashboardPeriod}
        → (raise_if a period_reversed
            >> (raise_if b period_too_long >> (raise_if c period_years >> ok x)))
          ≡ ok p
        → (a ≡ false) × (b ≡ false) × (c ≡ false) × (p ≡ x)
    passed false false false k = (refl, refl, refl, ok_injective k)
    passed false false true k = cc
    passed false true c k = cc
    passed true b c k = cc

-- The constructor accepts what fulfils its checks.
pub make_period-IsPeriod :
    {p : DashboardPeriod} → IsPeriod p → make_period p.date_from p.date_to ≡ ok p
unfolding make_period days
make_period-IsPeriod {p} v =
    let order = date_lt_iff p.date_to p.date_from v.to_date v.from_date in
    let in_order = v.in_order in
    let short = v.short in
    let from_year = v.from_year in
    let to_year = v.to_year in
    let a : date_lt p.date_to p.date_from ≡ false = ground arith in
    let b : ltb max_period_days (to_ordinal p.date_to + 1 - to_ordinal p.date_from) ≡ false =
      ground arith in
    let c : (ltb p.date_from.year min_year || ltb max_year p.date_to.year) ≡ false = ground arith in
    rw (a, b, c) refl

-- A part of a period is a period.
pub part-IsPeriod :
    {p : DashboardPeriod}
    → IsPeriod p
    → (a b : Date) → IsDate a
    → IsDate b
    → to_ordinal p.date_from ≤ to_ordinal a
    → to_ordinal a ≤ to_ordinal b
    → to_ordinal b ≤ to_ordinal p.date_to
    → IsPeriod (record { date_from = a; date_to = b })
part-IsPeriod {p} v a b va vb low mid high =
    let from_year = year_order p.date_from a v.from_date va low in
    let to_year = year_order b p.date_to vb v.to_date high in
    let short = v.short in
    let first = v.from_year in
    let last = v.to_year in
    record {
      from_date = va;
      to_date = vb;
      in_order = mid;
      short = omega arith;
      from_year = omega arith;
      to_year = omega arith;
    }
