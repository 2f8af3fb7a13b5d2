-- ===== src/Analytics/Dashboard/Detail.antt =====
-- The details that `BuildDashboard` assembles, of src/mintflow/application/analytics/dashboard.py.
use mint_flow.Prelude.{
  ℕ, ◌+◌, ◌==◌, Option, none, some, List, [], ◌∷◌, filter, find, sum_of, ltb, if◌then◌else◌,
}
use mint_flow.Prelude.Int.{pos, sub_ℕ}
use mint_flow.Calendar.{Date}
use mint_flow.Analytics.Aggregates.{
  CurrencyTotal, DailyTotal, CategoryTotal, MerchantTotal, AnalyticsRepository,
}
use mint_flow.Analytics.Dashboard.{Comparison, DashboardDetail}
use mint_flow.Analytics.Dashboard.Converted.{
  converted_buckets, converted_categories, converted_merchants, converted_largest,
}
use mint_flow.Analytics.Dashboard.Converter.{
  ConvertTo, Conv, ◌>>=◌, pure, lift, convert, can_convert,
}
use mint_flow.Analytics.Dashboard.Figures.{bucket_totals, assemble_detail, largest_of}
use mint_flow.Analytics.Dashboard.Shares.{share_basis_points}
use mint_flow.Analytics.Periods.{DashboardPeriod, ComparisonWindows, comparison_windows}
use mint_flow.Domain.Money.{CurrencyCode, currency_eq}

-- `window_total` gives the total and the count of a window
abbrev WindowTotal : Type 0
WindowTotal = DashboardPeriod → Conv (ℕ × ℕ)

unfoldable pub change_of : ComparisonWindows → ℕ → ℕ → Comparison
unfolding share_basis_points
change_of windows previous_total current_total =
    let change = sub_ℕ current_total previous_total in
    record {
      current_period = windows.current;
      current_total_minor_units = current_total;
      previous_period = windows.previous;
      previous_total_minor_units = previous_total;
      change_minor_units = change;
      change_basis_points =
          if ltb 0 previous_total
          then some (share_basis_points change (pos previous_total))
          else none;
    }

unfoldable pub compare_windows : WindowTotal → Option ComparisonWindows → Conv (Option Comparison)
unfolding change_of
compare_windows window_total none = pure none
compare_windows window_total (some windows) = window_total windows.previous >>= λ previous.
    if previous.1 == 0
    then pure none
    else (window_total windows.current >>= λ current.
        pure (some (change_of windows previous.0 current.0)))

unfoldable pub comparison : DashboardPeriod → WindowTotal → Date → Conv (Option Comparison)
unfolding comparison_windows compare_windows
comparison period window_total today =
    lift (comparison_windows period today) >>= λ windows. compare_windows window_total windows

abbrev pub amount_or_zero : Option CurrencyTotal → ℕ × ℕ
amount_or_zero none = (0, 0)
amount_or_zero (some found) = (found.total_minor_units, found.count)

abbrev converted_sum : ConvertTo → List CurrencyTotal → Conv ℕ
unfolding convert
converted_sum to [] = pure 0
converted_sum to (total ∷ totals) = convert to total.total_minor_units total.currency >>= λ amount.
    converted_sum to totals >>= λ rest. pure (amount + rest)

unfoldable pub converted_total : ConvertTo → List CurrencyTotal → Conv (ℕ × ℕ)
unfolding converted_sum
converted_total to totals = converted_sum to totals >>= λ amount.
    pure (amount, sum_of (λ (t : CurrencyTotal). t.count) totals)

abbrev pub convertible_totals : ConvertTo → List CurrencyTotal → List CurrencyTotal
unfolding can_convert
convertible_totals to = filter (λ (t : CurrencyTotal). can_convert to t.currency)

module _ ⦃analytics : AnalyticsRepository⦄ where
  unfoldable pub total_in : ℕ → DashboardPeriod → CurrencyCode → Option CurrencyTotal
  unfolding currency_eq
  total_in owner_id window currency =
      find (λ (t : CurrencyTotal). currency_eq t.currency currency)
        (analytics.currency_totals owner_id window)

  unfoldable pub detail :
      ℕ → DashboardPeriod → CurrencyCode → List CurrencyTotal → Date → Conv DashboardDetail
  unfolding currency_eq comparison total_in bucket_totals assemble_detail largest_of
  detail owner_id period currency currencies today =
      let selected =
        amount_or_zero (find (λ (t : CurrencyTotal). currency_eq t.currency currency) currencies) in
      let largest = analytics.largest_expense owner_id period currency in
      comparison period (λ window. pure (amount_or_zero (total_in owner_id window currency))) today
      >>= λ compared.
          lift (bucket_totals period (analytics.daily_totals owner_id period (some currency)))
          >>= λ chart. pure (
              assemble_detail selected.0 selected.1 compared chart
                (analytics.category_totals owner_id period (some currency))
                (analytics.merchant_totals owner_id period (some currency))
                (elim largest [ none ↦ none | some expense ↦ some (largest_of expense none) ]))

  unfoldable pub converted_detail :
      ConvertTo → ℕ → DashboardPeriod → List CurrencyTotal → Date → Conv DashboardDetail
  unfolding comparison converted_total converted_buckets converted_categories converted_merchants
      converted_largest can_convert convertible_totals assemble_detail
  converted_detail to owner_id period currencies today =
      converted_total to (convertible_totals to currencies) >>= λ total.
      comparison period
        (λ window.
          converted_total to (convertible_totals to (analytics.currency_totals owner_id window)))
        today
      >>= λ compared.
          converted_buckets to period (
            filter (λ (d : DailyTotal). can_convert to d.currency)
              (analytics.daily_totals owner_id period none))
          >>= λ chart.
              converted_categories to (
                filter (λ (t : CategoryTotal). can_convert to t.currency)
                  (analytics.category_totals owner_id period none))
              >>= λ categories.
                  converted_merchants to (
                    filter (λ (t : MerchantTotal). can_convert to t.currency)
                      (analytics.merchant_totals owner_id period none))
                  >>= λ merchants.
                      converted_largest to owner_id period (convertible_totals to currencies)
                      >>= λ largest. pure (
                          assemble_detail total.0 total.1 compared chart categories merchants
                            largest)
