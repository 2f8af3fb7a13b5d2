-- ===== src/Calendar/Ordinal.antt =====
-- Day numbers: a date's successor has the next one, and an earlier date a smaller one.
use mint_flow.Prelude.{ℕ, zero, suc, ◌+◌, ◌-◌, ◌≤◌, ◌<◌, ◌≡◌, ◌⊎◌, refl, true, arith, inl, inr}
use native.Mathlib.Numerals.{unary_clauses}
use mint_flow.Calendar.{
  Date, is_leap, days_in_month, days_in_year, days_before_month, days_before_year, to_ordinal,
  date_lt,
}

-- a date of the calendar
pub record IsDate (d : Date) : Type 0 where
  pub year_in : 1 ≤ d.year
  pub month_low : 1 ≤ d.month
  pub month_high : d.month ≤ 12
  pub day_low : 1 ≤ d.day
  pub day_high : d.day ≤ days_in_month d.year d.month

pub month_step :
    (y m : ℕ) → 1 ≤ m → days_before_month y (m + 1) ≡ days_before_month y m + days_in_month y m
month_step y zero h = absurd (omega arith)
month_step y (suc m) h = simp unary_clauses refl

-- twelve months make a year
pub year_months : (y : ℕ) → days_before_month y 13 ≡ days_in_year y
unfolding days_in_month is_leap
year_months y = ground arith

pub year_step : (y : ℕ) → 1 ≤ y → days_before_year (y + 1) ≡ days_before_year y + days_in_year y
unfolding days_before_year is_leap
year_step y h = ground arith

pub is_leap-bounds : (y : ℕ) → 365 ≤ days_in_year y
is_leap-bounds y = ground arith

pub days_in_month-low : (y m : ℕ) → 28 ≤ days_in_month y m
unfolding days_in_month
days_in_month-low y m = ground arith

-- the months of a year stand one after another
months_apart :
    (y m k : ℕ)
    → 1 ≤ m
    → days_before_month y m + days_in_month y m ≤ days_before_month y (m + 1 + k)
months_apart y m zero h = let e = month_step y m h in grind arith
months_apart y m (suc k) h =
    let ih = months_apart y m k h in let e = month_step y (m + 1 + k) (omega arith) in grind arith

years_apart : (y k : ℕ) → 1 ≤ y → days_before_year y + days_in_year y ≤ days_before_year (y + 1 + k)
unfolding days_before_year
years_apart y zero h = let e = year_step y h in omega arith
years_apart y (suc k) h =
    let ih = years_apart y k h in let e = year_step (y + 1 + k) (omega arith) in omega arith

-- the month's days lie within the year
month_in_year :
    (y m : ℕ) → 1 ≤ m → m ≤ 12 → days_before_month y m + days_in_month y m ≤ days_in_year y
month_in_year y m low high =
    let apart = months_apart y m (12 - m) low in
    let e : m + 1 + (12 - m) ≡ 13 = omega arith in
    let apart' = rw e at apart in let months = year_months y in omega arith

pub in_year : {d : Date} → IsDate d → days_before_month d.year d.month + d.day ≤ days_in_year d.year
in_year {d} v =
    let within = month_in_year d.year d.month v.month_low v.month_high in
    let high = v.day_high in omega arith

month_before :
    (y m m' : ℕ)
    → 1 ≤ m
    → m < m'
    → days_before_month y m + days_in_month y m ≤ days_before_month y m'
month_before y m m' low lt =
    let apart = months_apart y m (m' - (m + 1)) low in
    let e : m + 1 + (m' - (m + 1)) ≡ m' = omega arith in rw e at apart

pub year_before :
    (y y' : ℕ) → 1 ≤ y → y < y' → days_before_year y + days_in_year y ≤ days_before_year y'
year_before y y' low lt =
    let apart = years_apart y (y' - (y + 1)) low in
    let e : y + 1 + (y' - (y + 1)) ≡ y' = omega arith in rw e at apart

-- the three ways in which one date stands before another
IsBefore : Date → Date → Type 0
IsBefore a b =
    a.year < b.year ⊎ (a.year ≡ b.year) × (a.month < b.month ⊎ (a.month ≡ b.month) × a.day < b.day)

date_lt-cases : (a b : Date) → date_lt a b ≡ true → IsBefore a b
unfolding date_lt IsBefore
date_lt-cases a b lt = ground arith

-- An earlier date has a smaller day number.
pub date_lt-to_ordinal :
    (a b : Date) → IsDate a → IsDate b → date_lt a b ≡ true → to_ordinal a < to_ordinal b
unfolding IsBefore to_ordinal
date_lt-to_ordinal a b va vb lt = elim (date_lt-cases a b lt) [
  | inl years ↦
      let gap = year_before a.year b.year va.year_in years in
      let within = in_year va in let low = vb.day_low in omega arith
  | inr (same, inl months) ↦
      let gap = month_before a.year a.month b.month va.month_low months in
      let within = va.day_high in let low = vb.day_low in grind arith
  | inr (same, inr (same', days)) ↦ grind arith
]
