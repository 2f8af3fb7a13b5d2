-- ===== src/Analytics/Aggregates.antt =====
-- src/mintflow/application/analytics/aggregates.py: the totals that the dashboard reads. An amount
-- is the sum of positive amounts, so it is a natural number.
use mint_flow.Prelude.{ℕ, Option, List}
use mint_flow.Prelude.Text.{Text}
use mint_flow.Calendar.{Date}
use mint_flow.Analytics.Periods.{DashboardPeriod}
use mint_flow.Domain.Expense.{Expense}
use mint_flow.Domain.Money.{CurrencyCode}

pub record CurrencyTotal : Type 0 where
  pub currency : CurrencyCode
  pub total_minor_units : ℕ
  pub count : ℕ

pub record DailyTotal : Type 0 where
  pub currency : CurrencyCode
  pub transaction_date : Date
  pub total_minor_units : ℕ
  pub count : ℕ

pub record CategoryTotal : Type 0 where
  pub currency : CurrencyCode
  pub category_key : Text
  pub category_name : Text
  pub total_minor_units : ℕ
  pub count : ℕ

-- `merchant` is none for the expenses without one
pub record MerchantTotal : Type 0 where
  pub currency : CurrencyCode
  pub merchant : Option Text
  pub total_minor_units : ℕ
  pub count : ℕ

-- A currency of none asks for every currency.
pub record AnalyticsRepository : Type 0 where
  pub currency_totals : ℕ → DashboardPeriod → List CurrencyTotal
  pub daily_totals : ℕ → DashboardPeriod → Option CurrencyCode → List DailyTotal
  pub category_totals : ℕ → DashboardPeriod → Option CurrencyCode → List CategoryTotal
  pub merchant_totals : ℕ → DashboardPeriod → Option CurrencyCode → List MerchantTotal
  pub largest_expense : ℕ → DashboardPeriod → CurrencyCode → Option Expense
