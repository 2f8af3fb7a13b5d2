-- ===== src/Calendar/Days.antt =====
-- Steps from a date to the next and the one before, by their day numbers.
use mint_flow.Prelude.{
  ℕ, zero, suc, ◌+◌, ◌-◌, ◌≤◌, ◌<◌, ◌≡◌, ◌⊎◌, refl, true, false, arith, Bool-cases, inl, inr, ltb,
  ltb→lt,
}
use mint_flow.Calendar.{
  Date, days_in_month, days_before_year, to_ordinal, next_day, previous_day, plus_days, minus_days,
  date_lt,
}
use mint_flow.Calendar.Ordinal.{
  IsDate, month_step, year_before, in_year, year_months, year_step, days_in_month-low,
  date_lt-to_ordinal,
}

next_day_within :
    (d : Date)
    → ltb d.day (days_in_month d.year d.month) ≡ true
    → next_day d ≡ record d { day = d.day + 1 }
unfolding next_day
next_day_within d h = ground arith

next_day_over :
    (d : Date)
    → ltb d.day (days_in_month d.year d.month) ≡ false
    → ltb d.month 12 ≡ true
    → next_day d ≡ record { year = d.year; month = d.month + 1; day = 1 }
unfolding next_day
next_day_over d h h' = ground arith

next_day_year :
    (d : Date)
    → ltb d.day (days_in_month d.year d.month) ≡ false
    → ltb d.month 12 ≡ false
    → next_day d ≡ record { year = d.year + 1; month = 1; day = 1 }
unfolding next_day
next_day_year d h h' = ground arith

date :
    {y m n : ℕ}
    → 1 ≤ y
    → 1 ≤ m
    → m ≤ 12
    → 1 ≤ n
    → n ≤ days_in_month y m
    → IsDate (record { year = y; month = m; day = n })
date a b c d e = record { year_in = a; month_low = b; month_high = c; day_low = d; day_high = e }

pub next_day-IsDate : {d : Date} → IsDate d → IsDate (next_day d)
next_day-IsDate {d} v =
    let y = v.year_in in
    let m = v.month_low in
    let m' = v.month_high in
    let low = days_in_month-low d.year (d.month + 1) in
    let low' = days_in_month-low (d.year + 1) 1 in
    elim (Bool-cases (ltb d.day (days_in_month d.year d.month))) [
      | inl h ↦ rw (next_day_within d h) (date y m m' (omega arith) (ground arith))
      | inr h ↦ elim (Bool-cases (ltb d.month 12)) [
        | inl h' ↦
            rw (next_day_over d h h')
              (date y (omega arith) (ground arith) (omega arith) (omega arith))
        | inr h' ↦
            rw (next_day_year d h h')
              (date (omega arith) (omega arith) (omega arith) (omega arith) (omega arith))
      ]
    ]

-- The next day has the next day number.
pub to_ordinal-next_day : {d : Date} → IsDate d → to_ordinal (next_day d) ≡ to_ordinal d + 1
unfolding next_day to_ordinal
to_ordinal-next_day {d} v =
    let high = v.day_high in
    let step = month_step d.year d.month v.month_low in
    let over = year_step d.year v.year_in in let months = year_months d.year in grind arith

previous_within : (d : Date) → ltb 1 d.day ≡ true → previous_day d ≡ record d { day = d.day - 1 }
unfolding previous_day
previous_within d h = ground arith

pub previous_over :
    (d : Date)
    → ltb 1 d.day ≡ false
    → ltb 1 d.month ≡ true
    → previous_day d
      ≡ record { year = d.year; month = d.month - 1; day = days_in_month d.year (d.month - 1) }
unfolding previous_day
previous_over d h h' = ground arith

pub previous_year :
    (d : Date)
    → ltb 1 d.day ≡ false
    → ltb 1 d.month ≡ false
    → previous_day d ≡ record { year = d.year - 1; month = 12; day = 31 }
unfolding previous_day
previous_year d h h' = ground arith

pub december : (y : ℕ) → days_in_month y 12 ≡ 31
unfolding days_in_month
december y = refl

pub previous_day-IsDate : {d : Date} → IsDate d → 2 ≤ d.year → IsDate (previous_day d)
previous_day-IsDate {d} v later =
    let y = v.year_in in
    let m = v.month_low in
    let m' = v.month_high in
    let high = v.day_high in
    let low = days_in_month-low d.year (d.month - 1) in
    let last = december (d.year - 1) in
    elim (Bool-cases (ltb 1 d.day)) [
      | inl h ↦ rw (previous_within d h) (date y m m' (ground arith) (omega arith))
      | inr h ↦ elim (Bool-cases (ltb 1 d.month)) [
        | inl h' ↦
            rw (previous_over d h h')
              (date y (ground arith) (omega arith) (omega arith) (omega arith))
        | inr h' ↦
            rw (previous_year d h h')
              (date (omega arith) (omega arith) (omega arith) (omega arith) (omega arith))
      ]
    ]

-- The day before has the day number before.
pub to_ordinal-previous_day :
    {d : Date} → IsDate d → 2 ≤ d.year → to_ordinal (previous_day d) + 1 ≡ to_ordinal d
unfolding previous_day to_ordinal
to_ordinal-previous_day {d} v later =
    let low = v.day_low in
    let low' = v.month_low in
    let step = month_step d.year (d.month - 1) in
    let over = year_step (d.year - 1) (omega arith) in
    let months = year_months (d.year - 1) in
    let last = month_step (d.year - 1) 12 (omega arith) in
    let last' = december (d.year - 1) in grind arith

pub plus_days-IsDate : (d : Date) → IsDate d → (n : ℕ) → IsDate (plus_days d n)
unfolding plus_days
plus_days-IsDate d v zero = v
plus_days-IsDate d v (suc n) = plus_days-IsDate (next_day d) (next_day-IsDate v) n

pub to_ordinal-plus_days :
    (d : Date) → IsDate d → (n : ℕ) → to_ordinal (plus_days d n) ≡ to_ordinal d + n
unfolding plus_days
to_ordinal-plus_days d v zero = omega arith
to_ordinal-plus_days d v (suc n) =
    let ih = to_ordinal-plus_days (next_day d) (next_day-IsDate v) n in
    let step = to_ordinal-next_day v in omega arith

-- two dates of which neither is earlier are one
not_before-cases :
    (a b : Date)
    → date_lt a b ≡ false
    → date_lt b a ≡ true ⊎ (a.year ≡ b.year) × (a.month ≡ b.month) × a.day ≡ b.day
unfolding date_lt
not_before-cases a b h = ground arith

same_ordinal :
    (a b : Date) → a.year ≡ b.year → a.month ≡ b.month → a.day ≡ b.day → to_ordinal a ≡ to_ordinal b
unfolding to_ordinal
same_ordinal a b y m d = grind arith

-- Dates stand in the order of their day numbers.
pub date_lt_iff :
    (a b : Date) → IsDate a → IsDate b → date_lt a b ≡ ltb (to_ordinal a) (to_ordinal b)
date_lt_iff a b va vb = elim (Bool-cases (date_lt a b)) [
  | inl h ↦ let before = date_lt-to_ordinal a b va vb h in ground arith
  | inr h ↦ elim (not_before-cases a b h) [
    | inl h' ↦ let after = date_lt-to_ordinal b a vb va h' in ground arith
    | inr (y, m, d) ↦ let same = same_ordinal a b y m d in ground arith
  ]
]

pub not_before-le :
    (a b : Date) → IsDate a → IsDate b → date_lt a b ≡ false → to_ordinal b ≤ to_ordinal a
not_before-le a b va vb h = let order = date_lt_iff a b va vb in ground arith

-- A date whose day number is past the years before `y` is of the year `y` or later.
pub year_from : (y : ℕ) (d : Date) → IsDate d → days_before_year y < to_ordinal d → y ≤ d.year
unfolding to_ordinal
year_from y d v later = elim (Bool-cases (ltb d.year y)) [
  | inl h ↦
      let gap = year_before d.year y v.year_in (ltb→lt d.year y h) in
      let within = in_year v in absurd (omega arith)
  | inr h ↦ ground arith
]

-- As long as it stays after the first year of the calendar, going back lowers the day number.
pub minus_days-lem :
    (d : Date)
    → IsDate d
    → (n : ℕ) → n + 366 ≤ to_ordinal d
    → IsDate (minus_days d n) × (to_ordinal (minus_days d n) + n ≡ to_ordinal d)
unfolding minus_days days_before_year
minus_days-lem d v zero far = (v, omega arith)
minus_days-lem d v (suc n) far =
    let first : days_before_year 2 ≡ 365 = refl in
    let second = year_from 2 d v (omega arith) in
    let before = to_ordinal-previous_day v second in
    let (v', e) = minus_days-lem (previous_day d) (previous_day-IsDate v second) n (omega arith) in
    (v', omega arith)

pub year_to : (y : ℕ) (d : Date) → IsDate d → 1 ≤ y → y ≤ d.year → days_before_year y < to_ordinal d
unfolding to_ordinal
year_to y d v low le =
    let first = v.day_low in
    elim (Bool-cases (ltb y d.year)) [
      | inl h ↦ let gap = year_before y d.year low (ltb→lt y d.year h) in omega arith
      | inr h ↦ let e : y ≡ d.year = ground arith in rw e (omega arith)
    ]
