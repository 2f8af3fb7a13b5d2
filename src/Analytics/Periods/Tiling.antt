-- ===== src/Analytics/Periods/Tiling.antt =====
-- Periods that stand one after another without a gap, by day numbers, and the days in them.
use mint_flow.Prelude.{
  ℕ, ◌+◌, ◌≤◌, ◌≡◌, sym, arith, Bool, ◌&&◌, List, [], ◌∷◌, ltb, leb, if◌then◌else◌,
}
use mint_flow.Calendar.{Date, date_le, date_lt, to_ordinal}
use mint_flow.Calendar.Ordinal.{IsDate}
use mint_flow.Calendar.Days.{date_lt_iff}
use mint_flow.Analytics.Periods.{DashboardPeriod}
use mint_flow.Analytics.Periods.Valid.{IsPeriod}

-- `period.date_from <= d <= period.date_to`
unfoldable pub inside : DashboardPeriod → Date → Bool
unfolding date_lt
inside p d = date_le p.date_from d && date_le d p.date_to

abbrev pub count_in : Date → List DashboardPeriod → ℕ
count_in d [] = 0
count_in d (p ∷ rest) = (if inside p d then 1 else 0) + count_in d rest

-- the periods fill the day numbers from `low` up to `high`, which is not in them
abbrev pub Tiles : ℕ → List DashboardPeriod → ℕ → Type 0
Tiles low [] high = low ≡ high
Tiles low (p ∷ rest) high =
    IsPeriod p × (to_ordinal p.date_from ≡ low) × Tiles (to_ordinal p.date_to + 1) rest high

pub Tiles-at :
    {low low' high high' : ℕ} (ps : List DashboardPeriod)
    → low ≡ low'
    → high ≡ high'
    → Tiles low ps high
    → Tiles low' ps high'
Tiles-at ps e f t = rw (sym e, sym f) t

pub inside_iff :
    {p : DashboardPeriod} {d : Date}
    → IsPeriod p
    → IsDate d
    → inside p d
      ≡ (leb (to_ordinal p.date_from) (to_ordinal d) && leb (to_ordinal d) (to_ordinal p.date_to))
unfolding inside
inside_iff {p} {d} v vd =
    let a = date_lt_iff d p.date_from vd v.from_date in
    let b = date_lt_iff p.date_to d v.to_date vd in ground arith

pub Tiles-grow : (low : ℕ) (ps : List DashboardPeriod) (high : ℕ) → Tiles low ps high → low ≤ high
Tiles-grow low [] high e = omega arith
Tiles-grow low (p ∷ rest) high (v, e, t) =
    let ih = Tiles-grow (to_ordinal p.date_to + 1) rest high t in
    let order = v.in_order in omega arith

-- A day from `low` on and before `high` is in one of them, any other in none.
pub count_in-Tiles :
    (d : Date)
    → IsDate d
    → (low : ℕ) (ps : List DashboardPeriod) (high : ℕ) → Tiles low ps high
    → count_in d ps ≡ (if leb low (to_ordinal d) && ltb (to_ordinal d) high then 1 else 0)
count_in-Tiles d vd low [] high e = ground arith
count_in-Tiles d vd low (p ∷ rest) high (v, e, t) =
    let ih = count_in-Tiles d vd (to_ordinal p.date_to + 1) rest high t in
    let grow = Tiles-grow (to_ordinal p.date_to + 1) rest high t in
    let order = v.in_order in let test = inside_iff v vd in ground arith
