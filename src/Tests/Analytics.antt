-- ===== src/Tests/Analytics.antt =====
-- Periods, figures and dashboards at concrete values.
use mint_flow.Prelude.{
  ◌+◌, ◌≤◌, ◌≡◌, refl, arith, true, false, Option, none, some, List, [], ◌∷◌, length, sum_of,
  if◌then◌else◌,
}
use mathlib.Core.List.{Perm}
use mint_flow.Prelude.Int.{pos, negsuc}
use mint_flow.Prelude.Result.{ok}
use mint_flow.Prelude.Text.{codes, text_eq, text_lt}
use mint_flow.Calendar.{Date, days_in_month, days_before_year}
use mint_flow.Calendar.Ordinal.{IsDate}
use mint_flow.Analytics.Aggregates.{CategoryTotal, MerchantTotal}
use mint_flow.Analytics.Dashboard.{DashboardDetail, MerchantSpending}
use mint_flow.Analytics.Dashboard.Agreement.{Agrees, detail-Agrees}
use mint_flow.Analytics.Dashboard.Converter.{Used}
use mint_flow.Analytics.Dashboard.Detail.{detail}
use mint_flow.Analytics.Dashboard.Figures.{rank_categories, top_merchants, total_of, count_of}
use mint_flow.Analytics.Dashboard.Figures.Conserved.{
  top_merchants-conserves, other_total, other_count,
}
use mint_flow.Analytics.Dashboard.Figures.Ranked.{Ranked, AllShow, rank_categories-Ranked}
use mint_flow.Analytics.Dashboard.Shares.{
  share_basis_points, share_basis_points-IsNearest, IsNearest,
}
use mint_flow.Analytics.Periods.{
  DashboardPeriod, ChartBuckets, ComparisonWindows, chart_buckets, comparison_windows, make_period,
  days,
}
use mint_flow.Analytics.Periods.Buckets.{chart_buckets-partition}
use mint_flow.Analytics.Periods.Comparison.{comparison_windows-AreComparable, AreComparable}
use mint_flow.Analytics.Periods.Tiling.{inside, count_in}
use mint_flow.Analytics.Periods.Valid.{IsPeriod, make_period-eq-ok}
use mint_flow.Analytics.Queries.{Collation, active_in, currency_totals, sql_analytics}
use mint_flow.Analytics.Queries.Groups.{amount_of}
use mint_flow.Analytics.Queries.Rows.{IsStored}
use mint_flow.Capture.Database.{Db}
use mint_flow.Domain.Draft.{telegram_manual}
use mint_flow.Domain.Expense.{Expense}
use mint_flow.Domain.Money.{eur, usd}

abbrev pub march : Date
march = record { year = 2026; month = 3; day = 15 }

abbrev may : Date
may = record { year = 2026; month = 5; day = 10 }

abbrev pub spring : DashboardPeriod
spring = record { date_from = march; date_to = may }

march-IsDate : IsDate march
unfolding days_in_month
march-IsDate = record {
  year_in = omega arith;
  month_low = omega arith;
  month_high = omega arith;
  day_low = omega arith;
  day_high = omega arith;
}

may-IsDate : IsDate may
unfolding days_in_month
may-IsDate = record {
  year_in = omega arith;
  month_low = omega arith;
  month_high = omega arith;
  day_low = omega arith;
  day_high = omega arith;
}

spring-days : days spring ≡ 57
unfolding days days_before_year days_in_month
spring-days = refl

spring_made : make_period march may ≡ ok spring
unfolding make_period days_before_year days_in_month
spring_made = refl

spring-IsPeriod : IsPeriod spring
spring-IsPeriod = (make_period-eq-ok march may march-IsDate may-IsDate spring_made).1

chart_buckets-partition_example :
    (chart : ChartBuckets) × (chart_buckets spring ≡ ok chart)
    × ((d : Date) → IsDate d → count_in d chart.buckets ≡ (if inside spring d then 1 else 0))
chart_buckets-partition_example = chart_buckets-partition spring spring-IsPeriod

comparison_windows-AreComparable_example :
    (r : Option ComparisonWindows) × (comparison_windows spring march ≡ ok r)
    × AreComparable spring march r
comparison_windows-AreComparable_example =
    comparison_windows-AreComparable spring spring-IsPeriod march march-IsDate

-- half a basis point goes to the even side, also below zero
eighth : share_basis_points (pos 1) (pos 16000) ≡ pos 1
unfolding share_basis_points
eighth = refl

quarter_down : share_basis_points (negsuc 0) (pos 20000) ≡ pos 0
unfolding share_basis_points
quarter_down = refl

share_basis_points-IsNearest_example :
    IsNearest (negsuc 6) 3 (share_basis_points (negsuc 6) (pos 3))
share_basis_points-IsNearest_example = share_basis_points-IsNearest (negsuc 6) 3 (omega arith)

abbrev food : CategoryTotal
food = record {
  currency = eur;
  category_key = codes "food";
  category_name = codes "Food";
  total_minor_units = 300;
  count = 2;
}

abbrev travel : CategoryTotal
travel = record {
  currency = eur;
  category_key = codes "travel";
  category_name = codes "Travel";
  total_minor_units = 900;
  count = 1;
}

rank_categories-Ranked_example :
    Ranked (rank_categories (food ∷ travel ∷ []) 1200)
    × ((ordered : List CategoryTotal) × Perm ordered (food ∷ travel ∷ [])
        × AllShow 1200 ordered (rank_categories (food ∷ travel ∷ []) 1200))
rank_categories-Ranked_example = rank_categories-Ranked (food ∷ travel ∷ []) 1200

abbrev shop : MerchantTotal
shop = record { currency = eur; merchant = some (codes "Shop"); total_minor_units = 700; count = 3 }

abbrev unnamed : MerchantTotal
unnamed = record { currency = eur; merchant = none; total_minor_units = 500; count = 2 }

top_merchants-conserves_example :
    (sum_of
          (λ (m : MerchantSpending). m.total_minor_units)
          (top_merchants (unnamed ∷ shop ∷ []) 1200).merchants
        + other_total (top_merchants (unnamed ∷ shop ∷ []) 1200)
      ≡ total_of (unnamed ∷ shop ∷ []))
    × (sum_of
            (λ (m : MerchantSpending). m.count)
            (top_merchants (unnamed ∷ shop ∷ []) 1200).merchants
          + other_count (top_merchants (unnamed ∷ shop ∷ []) 1200)
        ≡ count_of (unnamed ∷ shop ∷ []))
    × (length (top_merchants (unnamed ∷ shop ∷ []) 1200).merchants ≤ 5)
top_merchants-conserves_example =
    top_merchants-conserves (unnamed ∷ shop ∷ []) 1200 (omega arith, (omega arith, tt))

abbrev pub lunch : Expense
lunch = record {
  id = 7;
  owner_id = 2;
  money = record { minor_units = 1250; currency = eur };
  transaction_date = record { value = march };
  category_key = codes "food";
  capture_draft_id = 1;
  created_at = 1000;
  modified_at = 1000;
  merchant = none;
  note = none;
  source = telegram_manual;
  receipt_id = none;
  deleted_at = none;
}

abbrev pub ticket : Expense
ticket = record lunch {
  id = 8;
  capture_draft_id = 2;
  money = record { minor_units = 300; currency = usd };
}

abbrev pub ledger : Db
ledger = record {
  drafts = [];
  expenses = lunch ∷ ticket ∷ [];
  change_records = [];
  users = [];
  categories = record { id = 1; key = codes "food"; name = codes "Food"; is_active = true } ∷ [];
}

instance abbrev by_code : Collation
unfolding text_lt
by_code = record { before = text_lt }

abbrev no_currency : Used
no_currency _ = false

ledger-IsStored : IsStored ledger
unfolding text_eq
ledger-IsStored = record {
  dates = (march-IsDate, (march-IsDate, tt));
  categories = (refl, (refl, tt));
}

detail-Agrees_example :
    (d : DashboardDetail) × (detail ⦃analytics = sql_analytics ledger⦄ 2 spring eur
        (currency_totals ledger 2 spring)
        march
        no_currency
      ≡ ok (d, no_currency))
    × Agrees
        (sum_of amount_of (active_in ledger 2 spring (some eur)))
        (length (active_in ledger 2 spring (some eur)))
        d
detail-Agrees_example =
    detail-Agrees ledger ledger-IsStored 2 spring spring-IsPeriod eur march march-IsDate no_currency
