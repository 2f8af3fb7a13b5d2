-- ===== src/Analytics/Dashboard/Figures.antt =====
-- The figures of src/mintflow/application/analytics/dashboard.py: the currency that is shown, the
-- chart, the categories and the merchants.
pub mod Ranked
pub mod Conserved
use mint_flow.Prelude.{
  ℕ, zero, suc, ◌+◌, Bool, true, false, ◌&&◌, ◌||◌, not, Option, none, some, List, [], ◌∷◌, ◌++◌,
  map, filter, find, take, drop, sum_of, sort_by, is_some, is_none, ltb, ◌==◌, if◌then◌else◌,
  length,
}
use mint_flow.Prelude.Int.{ℤ, pos}
use mint_flow.Prelude.Result.{Result, ok, err, ◌>>=◌}
use mint_flow.Prelude.Text.{Text, text_eq, text_lt}
use mint_flow.Calendar.{Date, date_lt}
use mint_flow.Analytics.Aggregates.{CurrencyTotal, DailyTotal, CategoryTotal, MerchantTotal}
use mint_flow.Analytics.Dashboard.{
  TimeBucket, SpendingOverTime, CategorySpending, MerchantSpending, TopMerchants, LargestExpense,
  Insights, Summary, Comparison, DashboardDetail,
}
use mint_flow.Analytics.Dashboard.Shares.{share_basis_points}
use mint_flow.Analytics.Errors.{AnalyticsError}
use mint_flow.Analytics.Periods.{DashboardPeriod, chart_buckets}
use mint_flow.Analytics.Periods.Tiling.{inside}
use mint_flow.Domain.Category.{uncategorized_key}
use mint_flow.Domain.Expense.{Expense}
use mint_flow.Domain.Money.{CurrencyCode, currency_eq}

abbrev pub top_merchant_count : ℕ
top_merchant_count = 5

abbrev default_among : Option CurrencyCode → List CurrencyCode → Option CurrencyCode × Bool
unfolding currency_eq
default_among none present = (none, true)
default_among (some default) present =
    if is_some (find (currency_eq default) present) then (some default, false) else (none, true)

-- the selected currency, and whether the user has to select one
unfoldable pub resolve_currency :
    Option CurrencyCode → List CurrencyCode → Option CurrencyCode → Option CurrencyCode × Bool
unfolding default_among
resolve_currency (some requested) present default = (some requested, false)
resolve_currency none [] default = (default, false)
resolve_currency none (only ∷ []) default = (some only, false)
resolve_currency none (first ∷ second ∷ rest) default =
    default_among default (first ∷ second ∷ rest)

unfoldable pub bucket_total : List DailyTotal → DashboardPeriod → TimeBucket
unfolding inside
bucket_total daily bucket =
    let within = filter (λ (d : DailyTotal). inside bucket d.transaction_date) daily in
    record {
      period = bucket;
      total_minor_units = sum_of (λ (d : DailyTotal). d.total_minor_units) within;
      count = sum_of (λ (d : DailyTotal). d.count) within;
    }

unfoldable pub bucket_totals :
    DashboardPeriod → List DailyTotal → Result AnalyticsError SpendingOverTime
unfolding chart_buckets bucket_total
bucket_totals period daily = do
  layout ← chart_buckets period
  ok (record {
    granularity = layout.granularity;
    buckets = map (bucket_total daily) layout.buckets;
  })

-- the key `(-total.total_minor_units, total.category_key)`
unfoldable pub category_before : CategoryTotal → CategoryTotal → Bool
unfolding text_lt
category_before a b =
    ltb b.total_minor_units a.total_minor_units
    || (a.total_minor_units == b.total_minor_units && text_lt a.category_key b.category_key)

unfoldable pub category_spending : ℕ → CategoryTotal → CategorySpending
unfolding share_basis_points
category_spending grand_total total = record {
  category_key = total.category_key;
  category_name = total.category_name;
  total_minor_units = total.total_minor_units;
  count = total.count;
  share_basis_points = share_basis_points (pos total.total_minor_units) (pos grand_total);
}

unfoldable pub rank_categories : List CategoryTotal → ℕ → List CategorySpending
unfolding sort_by category_before category_spending
rank_categories totals grand_total =
    map (category_spending grand_total) (sort_by category_before totals)

abbrev option_text_lt : Option Text → Option Text → Bool
unfolding text_lt
option_text_lt (some a) (some b) = text_lt a b
option_text_lt _ _ = false

-- the key `(-total.total_minor_units, total.merchant)`, of totals that have a merchant
unfoldable pub merchant_before : MerchantTotal → MerchantTotal → Bool
unfolding option_text_lt
merchant_before a b =
    ltb b.total_minor_units a.total_minor_units
    || (a.total_minor_units == b.total_minor_units && option_text_lt a.merchant b.merchant)

abbrev pub merchant_spending : ℕ → MerchantTotal → MerchantSpending
unfolding share_basis_points
merchant_spending grand_total total = record {
  merchant = total.merchant;
  total_minor_units = total.total_minor_units;
  count = total.count;
  share_basis_points = share_basis_points (pos total.total_minor_units) (pos grand_total);
}

abbrev pub has_merchant : MerchantTotal → Bool
has_merchant total = is_some total.merchant

unfoldable pub named : List MerchantTotal → List MerchantTotal
unfolding sort_by merchant_before
named totals = sort_by merchant_before (filter has_merchant totals)

-- the named merchants past the first, and those without a name
unfoldable pub others : List MerchantTotal → List MerchantTotal
unfolding named
others totals =
    drop top_merchant_count (named totals)
    ++ filter (λ (t : MerchantTotal). not (has_merchant t)) totals

abbrev pub total_of : List MerchantTotal → ℕ
total_of = sum_of (λ (t : MerchantTotal). t.total_minor_units)

abbrev pub count_of : List MerchantTotal → ℕ
count_of = sum_of (λ (t : MerchantTotal). t.count)

unfoldable pub top_merchants : List MerchantTotal → ℕ → TopMerchants
unfolding named others share_basis_points merchant_spending
top_merchants totals grand_total = record {
  merchants = map (merchant_spending grand_total) (take top_merchant_count (named totals));
  other =
      if count_of (others totals) == 0
      then none
      else some (record {
        merchant = none;
        total_minor_units = total_of (others totals);
        count = count_of (others totals);
        share_basis_points = share_basis_points (pos (total_of (others totals))) (pos grand_total);
      });
}

unfoldable pub largest_of : Expense → Option ℕ → LargestExpense
largest_of expense converted = record {
  expense_id = expense.id;
  money = expense.money;
  merchant = elim expense.merchant [ none ↦ none | some m ↦ some m.value ];
  transaction_date = expense.transaction_date.value;
  converted_minor_units = converted;
}

abbrev is_categorized : CategorySpending → Bool
unfolding text_eq
is_categorized c = not (text_eq c.category_key uncategorized_key)

unfoldable pub assemble_detail :
    ℕ
    → ℕ
    → Option Comparison
    → SpendingOverTime
    → List CategoryTotal
    → List MerchantTotal
    → Option LargestExpense
    → DashboardDetail
unfolding rank_categories top_merchants is_categorized
assemble_detail total count comparison spending_over_time category_totals merchant_totals largest =
    let categories = rank_categories category_totals total in
    record {
      summary = record { total_minor_units = total; count = count; comparison = comparison };
      spending_over_time = spending_over_time;
      categories = categories;
      top_merchants = top_merchants merchant_totals total;
      insights = record {
        largest_category = find is_categorized categories;
        largest_expense = largest;
      };
    }

unfoldable pub empty_detail : DashboardPeriod → Result AnalyticsError DashboardDetail
unfolding bucket_totals
empty_detail period = do
  chart ← bucket_totals period []
  ok (record {
    summary = record { total_minor_units = 0; count = 0; comparison = none };
    spending_over_time = chart;
    categories = [];
    top_merchants = record { merchants = []; other = none };
    insights = record { largest_category = none; largest_expense = none };
  })
