-- ===== src/Analytics/Dashboard/Agreement.antt =====
-- One currency's dashboard over the aggregates of the database: all its figures agree.
use mint_flow.Prelude.{
  ℕ, ◌+◌, ◌≡◌, refl, ◌∙◌, ap, arith, Bool, true, false, Option, none, some, List, [], ◌∷◌, find,
  length, All, sum_of, sort_by, sum_of-sort_by, ◌==◌,
}
use mint_flow.Prelude.Result.{Result, ok, err}
use mint_flow.Calendar.{Date}
use mint_flow.Calendar.Ordinal.{IsDate}
use mint_flow.Analytics.Aggregates.{CurrencyTotal, CategoryTotal, MerchantTotal}
use mint_flow.Analytics.Dashboard.{
  Comparison, TimeBucket, CategorySpending, MerchantSpending, SpendingOverTime, DashboardDetail,
  LargestExpense,
}
use mint_flow.Analytics.Dashboard.Converter.{Conv, Used, ◌>>=◌, pure, lift}
use mint_flow.Analytics.Dashboard.Detail.{
  detail, comparison, compare_windows, change_of, amount_or_zero, total_in,
}
use mint_flow.Analytics.Dashboard.Figures.{
  rank_categories, category_before, category_spending, bucket_totals, assemble_detail, total_of,
  count_of, largest_of,
}
use mint_flow.Analytics.Dashboard.Figures.Conserved.{
  bucket_totals-conserves, top_merchants-conserves, other_total, other_count, HasCount, sum_of-map,
}
use mint_flow.Analytics.Errors.{AnalyticsError}
use mint_flow.Analytics.Periods.{DashboardPeriod, ComparisonWindows}
use mint_flow.Analytics.Periods.Comparison.{comparison_windows-AreComparable}
use mint_flow.Analytics.Periods.Valid.{IsPeriod}
use mint_flow.Analytics.Queries.{
  Collation, active_in, sql_analytics, currency_totals, largest_expense, daily_totals,
  merchant_totals, category_totals,
}
use mint_flow.Analytics.Queries.Groups.{amount_of}
use mint_flow.Analytics.Queries.Rows.{
  IsStored, daily-IsOfPeriod, merchants-HasCount, daily-sums, merchant-sums, category-sums,
}
use mint_flow.Analytics.Queries.Selected.{currency_totals-found}
use mint_flow.Capture.Database.{Db}
use mint_flow.Domain.Money.{CurrencyCode, currency_eq}

-- the figures of a detail that are sums, each of which is `total` or `count`
pub record Agrees (total count : ℕ) (d : DashboardDetail) : Type 0 where
  pub summary_total : d.summary.total_minor_units ≡ total
  pub summary_count : d.summary.count ≡ count
  pub chart_total :
      sum_of (λ (b : TimeBucket). b.total_minor_units) d.spending_over_time.buckets ≡ total
  pub chart_count : sum_of (λ (b : TimeBucket). b.count) d.spending_over_time.buckets ≡ count
  pub categories_total : sum_of (λ (c : CategorySpending). c.total_minor_units) d.categories ≡ total
  pub categories_count : sum_of (λ (c : CategorySpending). c.count) d.categories ≡ count
  pub merchants_total :
      sum_of (λ (m : MerchantSpending). m.total_minor_units) d.top_merchants.merchants
        + other_total d.top_merchants
      ≡ total
  pub merchants_count :
      sum_of (λ (m : MerchantSpending). m.count) d.top_merchants.merchants
        + other_count d.top_merchants
      ≡ count

-- a comparison whose window totals are only read neither fails nor uses a rate
compare_windows-pure :
    (window_total : DashboardPeriod → ℕ × ℕ) (r : Option ComparisonWindows) (used : Used)
    → (c : Option Comparison) × (compare_windows (λ w. pure (window_total w)) r used ≡ ok (c, used))
unfolding compare_windows
compare_windows-pure window_total none used = (none, refl)
compare_windows-pure window_total (some windows) used =
    go ((window_total windows.previous).1 == 0) refl
  where
    go :
        (b : Bool)
        → (window_total windows.previous).1 == 0 ≡ b
        → (c : Option Comparison) × (compare_windows
              (λ w. pure (window_total w))
              (some windows)
              used
            ≡ ok (c, used))
    go true e = (none, rw e refl)
    go false e = (
      some (change_of windows (window_total windows.previous).0 (window_total windows.current).0),
      rw e refl,
    )

comparison-pure :
    (p : DashboardPeriod)
    → IsPeriod p
    → (today : Date) → IsDate today
    → (window_total : DashboardPeriod → ℕ × ℕ) (used : Used)
    → (c : Option Comparison) × (comparison p (λ w. pure (window_total w)) today used
        ≡ ok (c, used))
unfolding comparison
comparison-pure p v today vt window_total used =
    let (r, e, _) = comparison_windows-AreComparable p v today vt in
    let (c, e') = compare_windows-pure window_total r used in (c, rw e e')

-- categories keep their figures when they are ranked
ranked-sum :
    (f : CategorySpending → ℕ) (g : CategoryTotal → ℕ) (total : ℕ) (ts : List CategoryTotal)
    → ((t : CategoryTotal) → f (category_spending total t) ≡ g t)
    → sum_of f (rank_categories ts total) ≡ sum_of g ts
unfolding rank_categories
ranked-sum f g total ts same =
    sum_of-map f (category_spending total) (sort_by category_before ts)
    ∙ (go (sort_by category_before ts) ∙ sum_of-sort_by g category_before ts)
  where
    go : (xs : List CategoryTotal) → sum_of (λ t. f (category_spending total t)) xs ≡ sum_of g xs
    go [] = refl
    go (x ∷ xs) = omega (arith, same x, go xs)

assembled-Agrees :
    (total count : ℕ) (c : Option Comparison) (chart : SpendingOverTime)
    (categories : List CategoryTotal) (merchants : List MerchantTotal)
    (largest : Option LargestExpense) (T N : ℕ)
    → total ≡ T
    → count ≡ N
    → sum_of (λ (b : TimeBucket). b.total_minor_units) chart.buckets ≡ T
    → sum_of (λ (b : TimeBucket). b.count) chart.buckets ≡ N
    → (sum_of (λ (t : CategoryTotal). t.total_minor_units) categories ≡ T)
      × (sum_of (λ (t : CategoryTotal). t.count) categories ≡ N)
    → (total_of merchants ≡ T) × (count_of merchants ≡ N)
    → All HasCount merchants
    → Agrees T N (assemble_detail total count c chart categories merchants largest)
unfolding assemble_detail
assembled-Agrees total count c chart categories merchants largest T N t n ct cn (kt, kn) (mt, mn)
      h =
    let (a, b, _) = top_merchants-conserves merchants total h in
    record {
      summary_total = t;
      summary_count = n;
      chart_total = ct;
      chart_count = cn;
      categories_total = ranked-sum _ (λ t. t.total_minor_units) total categories (λ t. refl) ∙ kt;
      categories_count = ranked-sum _ (λ t. t.count) total categories (λ t. refl) ∙ kn;
      merchants_total = a ∙ mt;
      merchants_count = b ∙ mn;
    }

-- a computation goes on with what its first step gives
conv_ok :
    {A B : Type 0} (m : Conv A) (rest : A → Conv B) (a : A) (used used' : Used)
    → m used ≡ ok (a, used')
    → (m >>= rest) used ≡ rest a used'
conv_ok {A} {B} m rest a used used' e = ap (λ (r : Result AnalyticsError (A × Used)). go r) e
  where
    go : Result AnalyticsError (A × Used) → Result AnalyticsError (B × Used)
    go r = elim r [ err x ↦ err x | ok (b, u) ↦ rest b u ]

chained :
    (m : Conv (Option Comparison)) (b : Result AnalyticsError SpendingOverTime)
    (f : Option Comparison → SpendingOverTime → DashboardDetail) (c : Option Comparison)
    (s : SpendingOverTime) (used : Used)
    → m used ≡ ok (c, used)
    → b ≡ ok s
    → (m >>= λ compared. lift b >>= λ chart. pure (f compared chart)) used ≡ ok (f c s, used)
chained m b f c s used e e' =
    conv_ok m (λ compared. lift b >>= λ chart. pure (f compared chart)) c used used e
    ∙ conv_ok (lift b) (λ chart. pure (f c chart)) s used used (ap (λ r. lift r used) e')

-- For a valid period and dates of the calendar the detail in one currency is made, without an
-- exception. Its summary, the buckets of its chart, its categories, and its merchants with the
-- group of the others each sum up to the amount and to the number of the active expenses of the
-- owner in the period and of that currency.
pub detail-Agrees :
    ⦃collation : Collation⦄ (db : Db)
    → IsStored db
    → (owner_id : ℕ) (p : DashboardPeriod) → IsPeriod p
    → (c : CurrencyCode) (today : Date) → IsDate today
    → (used : Used)
    → let rows = active_in db owner_id p (some c) in
      (d : DashboardDetail) × (detail ⦃analytics = sql_analytics db⦄ owner_id p c
          (currency_totals db owner_id p)
          today
          used
        ≡ ok (d, used))
      × Agrees (sum_of amount_of rows) (length rows) d
unfolding detail sql_analytics
detail-Agrees db stored owner_id p v c today vt used =
    let (compared, e) =
      comparison-pure p v today vt
        (λ w. amount_or_zero (total_in ⦃analytics = sql_analytics db⦄ owner_id w c)) used in
    let daily = daily_totals db owner_id p (some c) in
    let (chart, e', ct, cn) =
      bucket_totals-conserves p v daily (daily-IsOfPeriod db stored owner_id p (some c)) in
    let (dt, dn) = daily-sums db owner_id p (some c) in
    let found = currency_totals-found db owner_id p c in
    let selected =
      amount_or_zero
        (find (λ (t : CurrencyTotal). currency_eq t.currency c) (currency_totals db owner_id p)) in
    let largest : Option LargestExpense = elim (largest_expense db owner_id p c) [
      | none ↦ none
      | some x ↦ some (largest_of x none)
    ] in
    (
      assemble_detail selected.0 selected.1 compared chart (category_totals db owner_id p (some c))
          (merchant_totals db owner_id p (some c)) largest,
      chained
          (comparison p
            (λ w. pure (amount_or_zero (total_in ⦃analytics = sql_analytics db⦄ owner_id w c)))
            today)
          (bucket_totals p daily)
          (λ cmp s.
            assemble_detail selected.0 selected.1 cmp s (category_totals db owner_id p (some c))
              (merchant_totals db owner_id p (some c)) largest)
          compared chart used e e',
      assembled-Agrees selected.0 selected.1 compared chart (category_totals db owner_id p (some c))
          (merchant_totals db owner_id p (some c)) largest _ _ (ap (λ r. r.0) found)
          (ap (λ r. r.1) found) (ct ∙ dt) (cn ∙ dn) (category-sums db owner_id p (some c) stored)
          (merchant-sums db owner_id p (some c)) (merchants-HasCount db owner_id p (some c)),
    )
