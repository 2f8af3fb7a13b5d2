-- ===== src/Analytics/Dashboard/Converted.antt =====
-- The converted figures of src/mintflow/application/analytics/dashboard.py: each currency's total
-- converts once, then the converted totals add up.
use mint_flow.Prelude.{
  ℕ, ◌+◌, ◌==◌, Bool, true, false, ◌&&◌, ◌||◌, Option, none, some, List, [], ◌∷◌, ltb,
  if◌then◌else◌,
}
use mint_flow.Prelude.Text.{Text, text_eq}
use mint_flow.Calendar.{date_lt, date_eq}
use mint_flow.Analytics.Aggregates.{
  CurrencyTotal, DailyTotal, CategoryTotal, MerchantTotal, AnalyticsRepository,
}
use mint_flow.Analytics.Dashboard.{TimeBucket, SpendingOverTime, LargestExpense}
use mint_flow.Analytics.Dashboard.Converter.{
  ConvertTo, Conv, ◌>>=◌, pure, lift, convert, by_currency,
}
use mint_flow.Analytics.Dashboard.Figures.{bucket_totals, largest_of}
use mint_flow.Analytics.Periods.{DashboardPeriod}
use mint_flow.Domain.Expense.{Expense}
use mint_flow.Domain.Money.{CurrencyCode}

-- `buckets[index]` with the converted total of one currency's bucket, which may be empty
abbrev add_bucket : ConvertTo → CurrencyCode → TimeBucket → TimeBucket → Conv TimeBucket
unfolding convert
add_bucket to currency combined bucket =
    if bucket.count == 0
    then pure combined
    else (convert to bucket.total_minor_units currency >>= λ amount. pure (record {
      period = bucket.period;
      total_minor_units = combined.total_minor_units + amount;
      count = combined.count + bucket.count;
    }))

-- both lists are the buckets of one period
abbrev add_buckets :
    ConvertTo → CurrencyCode → List TimeBucket → List TimeBucket → Conv (List TimeBucket)
unfolding add_bucket
add_buckets to currency (combined ∷ rest) (bucket ∷ buckets) =
    add_bucket to currency combined bucket >>= λ first.
    add_buckets to currency rest buckets >>= λ others. pure (first ∷ others)
add_buckets to currency combined _ = pure combined

abbrev add_currencies :
    ConvertTo
    → DashboardPeriod
    → List TimeBucket
    → List (CurrencyCode × List DailyTotal)
    → Conv (List TimeBucket)
unfolding bucket_totals add_buckets
add_currencies to period combined [] = pure combined
add_currencies to period combined ((currency, daily) ∷ rest) =
    lift (bucket_totals period daily) >>= λ own.
    add_buckets to currency combined own.buckets >>= λ more. add_currencies to period more rest

unfoldable pub converted_buckets :
    ConvertTo → DashboardPeriod → List DailyTotal → Conv SpendingOverTime
unfolding bucket_totals add_currencies by_currency
converted_buckets to period daily = lift (bucket_totals period []) >>= λ combined.
    add_currencies to period combined.buckets (by_currency daily []) >>= λ buckets.
    pure (record { granularity = combined.granularity; buckets = buckets })

-- the category's entry of the dictionary, with the converted total added
abbrev put_category : ConvertTo → CategoryTotal → ℕ → List CategoryTotal → List CategoryTotal
unfolding text_eq
put_category to total amount [] =
    record total { currency = to.currency; total_minor_units = amount } ∷ []
put_category to total amount (previous ∷ rest) =
    if text_eq previous.category_key total.category_key
    then record total {
      currency = to.currency;
      total_minor_units = amount + previous.total_minor_units;
      count = total.count + previous.count;
    }
      ∷ rest
    else previous ∷ put_category to total amount rest

abbrev fold_categories :
    ConvertTo → List CategoryTotal → List CategoryTotal → Conv (List CategoryTotal)
unfolding convert put_category
fold_categories to combined [] = pure combined
fold_categories to combined (total ∷ totals) =
    convert to total.total_minor_units total.currency >>= λ amount.
    fold_categories to (put_category to total amount combined) totals

unfoldable pub converted_categories : ConvertTo → List CategoryTotal → Conv (List CategoryTotal)
unfolding fold_categories
converted_categories to totals = fold_categories to [] totals

abbrev merchant_eq : Option Text → Option Text → Bool
unfolding text_eq
merchant_eq none none = true
merchant_eq (some a) (some b) = text_eq a b
merchant_eq _ _ = false

abbrev put_merchant : ConvertTo → MerchantTotal → ℕ → List MerchantTotal → List MerchantTotal
unfolding merchant_eq
put_merchant to total amount [] =
    record total { currency = to.currency; total_minor_units = amount } ∷ []
put_merchant to total amount (previous ∷ rest) =
    if merchant_eq previous.merchant total.merchant
    then record total {
      currency = to.currency;
      total_minor_units = amount + previous.total_minor_units;
      count = total.count + previous.count;
    }
      ∷ rest
    else previous ∷ put_merchant to total amount rest

abbrev fold_merchants :
    ConvertTo → List MerchantTotal → List MerchantTotal → Conv (List MerchantTotal)
unfolding convert put_merchant
fold_merchants to combined [] = pure combined
fold_merchants to combined (total ∷ totals) =
    convert to total.total_minor_units total.currency >>= λ amount.
    fold_merchants to (put_merchant to total amount combined) totals

unfoldable pub converted_merchants : ConvertTo → List MerchantTotal → Conv (List MerchantTotal)
unfolding fold_merchants
converted_merchants to totals = fold_merchants to [] totals

-- the key (converted amount, transaction date, creation, id)
abbrev less_large : ℕ × Expense → ℕ × Expense → Bool
unfolding date_lt date_eq
less_large (a, e) (b, f) =
    ltb a b
    || (a == b
        && (date_lt e.transaction_date.value f.transaction_date.value
            || (date_eq e.transaction_date.value f.transaction_date.value
                && (ltb e.created_at f.created_at
                    || (e.created_at == f.created_at && ltb e.id f.id)))))

-- `max`: of equal candidates the first
abbrev max_of : ℕ × Expense → List (ℕ × Expense) → ℕ × Expense
unfolding less_large
max_of best [] = best
max_of best (candidate ∷ rest) = max_of (if less_large best candidate then candidate else best) rest

abbrev with_candidate :
    ConvertTo → Option Expense → Conv (List (ℕ × Expense)) → Conv (List (ℕ × Expense))
unfolding convert
with_candidate to none others = others
with_candidate to (some expense) others =
    convert to expense.money.minor_units expense.money.currency >>= λ amount.
    others >>= λ rest. pure ((amount, expense) ∷ rest)

abbrev candidates :
    ⦃analytics : AnalyticsRepository⦄
    → ConvertTo
    → ℕ
    → DashboardPeriod
    → List CurrencyTotal
    → Conv (List (ℕ × Expense))
unfolding with_candidate
candidates to owner_id period [] = pure []
candidates ⦃analytics⦄ to owner_id period (total ∷ totals) =
    with_candidate to (analytics.largest_expense owner_id period total.currency)
      (candidates to owner_id period totals)

abbrev largest_among : List (ℕ × Expense) → Option LargestExpense
unfolding max_of largest_of
largest_among [] = none
largest_among (first ∷ rest) =
    let best = max_of first rest in some (largest_of best.1 (some best.0))

unfoldable pub converted_largest :
    ⦃analytics : AnalyticsRepository⦄
    → ConvertTo
    → ℕ
    → DashboardPeriod
    → List CurrencyTotal
    → Conv (Option LargestExpense)
unfolding candidates largest_among
converted_largest to owner_id period currencies =
    candidates to owner_id period currencies >>= λ found. pure (largest_among found)
