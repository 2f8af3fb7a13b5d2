-- ===== src/Analytics/Queries/Rows.antt =====
-- What is known of the rows of the aggregates, and the sums of their figures.
use mint_flow.Prelude.{
  ℕ, ◌≡◌, refl, ◌∙◌, ap, Bool, true, false, ◌&&◌, Option, List, map, filter, length, All,
  All-filter, All-map, All-imp, All-sort_by, filter-all, sum_of, sort_by, sum_of-sort_by, ◌==◌,
}
use mint_flow.Calendar.Ordinal.{IsDate}
use mint_flow.Analytics.Aggregates.{DailyTotal, CategoryTotal, MerchantTotal}
use mint_flow.Analytics.Dashboard.Figures.Conserved.{IsOfPeriod, HasCount, sum_of-map}
use mint_flow.Analytics.Periods.{DashboardPeriod}
use mint_flow.Analytics.Periods.Tiling.{inside}
use mint_flow.Analytics.Queries.{
  Collation, Group, active_in, is_active_in, joins, daily_totals, daily_order, of_day, same_day,
  merchant_totals, merchant_order, of_merchant, same_merchant, merchant_key_of, category_totals,
  category_order, of_category, same_category, category_key_of,
}
use mint_flow.Analytics.Queries.Groups.{
  amount_of, group_by-total, group_by-count, group_by-All, group_by-counted,
}
use mint_flow.Capture.Database.{Db}
use mint_flow.Domain.Expense
use mint_flow.Domain.Expense.{Expense}
use mint_flow.Domain.Money.{CurrencyCode}

-- The rows of the database that the dashboard stands on: dates of the calendar, and categories that
-- the foreign key has found.
pub record IsStored (db : Db) : Type 0 where
  pub dates : All (λ (e : Expense). IsDate e.transaction_date.value) db.expenses
  pub categories : All (λ (e : Expense). joins db e ≡ true) db.expenses

rows_within :
    (db : Db)
    → IsStored db
    → (owner_id : ℕ) (p : DashboardPeriod) (currency : Option CurrencyCode)
    → All
        (λ (e : Expense).
          IsDate e.transaction_date.value × (inside p e.transaction_date.value ≡ true))
        (active_in db owner_id p currency)
unfolding active_in
rows_within db stored owner_id p currency =
    All-imp
      (λ e h. (
        h.0,
        third (e.owner_id == owner_id) (Expense.is_active e) (inside p e.transaction_date.value) _
            h.1,
      ))
      _ (All-filter _ (is_active_in owner_id p currency) db.expenses stored.dates)
  where
    third : (a b c d : Bool) → (a && (b && (c && d))) ≡ true → c ≡ true
    third true true true d h = refl
    third true true false d h = cc
    third true false c d h = cc
    third false b c d h = cc

module _ ⦃collation : Collation⦄ where
  pub daily-IsOfPeriod :
      (db : Db)
      → IsStored db
      → (owner_id : ℕ) (p : DashboardPeriod) (currency : Option CurrencyCode)
      → All (IsOfPeriod p) (daily_totals db owner_id p currency)
  unfolding daily_totals
  daily-IsOfPeriod db stored owner_id p currency = All-sort_by (IsOfPeriod p) daily_order _ (
      All-map (IsOfPeriod p) of_day _ (
        group_by-All same_day (λ k. IsDate k.1 × (inside p k.1 ≡ true)) _
          (active_in db owner_id p currency) (rows_within db stored owner_id p currency)))

  pub merchants-HasCount :
      (db : Db) (owner_id : ℕ) (p : DashboardPeriod) (currency : Option CurrencyCode)
      → All HasCount (merchant_totals db owner_id p currency)
  unfolding merchant_totals
  merchants-HasCount db owner_id p currency = All-sort_by HasCount merchant_order _ (
      All-map HasCount of_merchant _
        (group_by-counted same_merchant merchant_key_of (active_in db owner_id p currency)))

ordered-sum :
    {K T : Type 0} (less : T → T → Bool) (of : Group K → T) (f : T → ℕ) (gs : List (Group K))
    → sum_of f (sort_by less (map of gs)) ≡ sum_of (λ g. f (of g)) gs
ordered-sum less of f gs = sum_of-sort_by f less (map of gs) ∙ sum_of-map f of gs

module _ ⦃collation : Collation⦄ (db : Db) (owner_id : ℕ) (p : DashboardPeriod)
    (currency : Option CurrencyCode) where
  pub daily-sums :
      (sum_of (λ (d : DailyTotal). d.total_minor_units) (daily_totals db owner_id p currency)
        ≡ sum_of amount_of (active_in db owner_id p currency))
      × (sum_of (λ (d : DailyTotal). d.count) (daily_totals db owner_id p currency)
          ≡ length (active_in db owner_id p currency))
  unfolding daily_totals
  daily-sums = (
    ordered-sum daily_order of_day (λ (d : DailyTotal). d.total_minor_units) _
        ∙ group_by-total same_day _ _,
    ordered-sum daily_order of_day (λ (d : DailyTotal). d.count) _ ∙ group_by-count same_day _ _,
  )

  pub merchant-sums :
      (sum_of (λ (t : MerchantTotal). t.total_minor_units) (merchant_totals db owner_id p currency)
        ≡ sum_of amount_of (active_in db owner_id p currency))
      × (sum_of (λ (t : MerchantTotal). t.count) (merchant_totals db owner_id p currency)
          ≡ length (active_in db owner_id p currency))
  unfolding merchant_totals
  merchant-sums = (
    ordered-sum merchant_order of_merchant (λ (t : MerchantTotal). t.total_minor_units) _
        ∙ group_by-total same_merchant _ _,
    ordered-sum merchant_order of_merchant (λ (t : MerchantTotal). t.count) _
        ∙ group_by-count same_merchant _ _,
  )

  -- the join keeps every row
  joined :
      IsStored db
      → filter (joins db) (active_in db owner_id p currency) ≡ active_in db owner_id p currency
  unfolding active_in
  joined stored = filter-all (joins db) _ (
      All-imp (λ e h. h.0) _
        (All-filter _ (is_active_in owner_id p currency) db.expenses stored.categories))

  pub category-sums :
      IsStored db
      → (sum_of
            (λ (t : CategoryTotal). t.total_minor_units)
            (category_totals db owner_id p currency)
          ≡ sum_of amount_of (active_in db owner_id p currency))
        × (sum_of (λ (t : CategoryTotal). t.count) (category_totals db owner_id p currency)
            ≡ length (active_in db owner_id p currency))
  unfolding category_totals
  category-sums stored = (
    ordered-sum category_order of_category (λ (t : CategoryTotal). t.total_minor_units) _
        ∙ (group_by-total same_category (category_key_of db) _
            ∙ ap (sum_of amount_of) (joined stored)),
    ordered-sum category_order of_category (λ (t : CategoryTotal). t.count) _
        ∙ (group_by-count same_category (category_key_of db) _ ∙ ap length (joined stored)),
  )
