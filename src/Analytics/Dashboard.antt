-- ===== src/Analytics/Dashboard.antt =====
-- src/mintflow/application/analytics/dashboard.py: the dashboard's parts.
pub mod Outcome
pub mod Agreement
pub mod Detail
pub mod Build
pub mod Converted
pub mod Converter
pub mod Figures
pub mod Shares
use mint_flow.Prelude.{ℕ, Bool, Option, List}
use mint_flow.Prelude.Int.{ℤ}
use mint_flow.Prelude.Text.{Text}
use mint_flow.Calendar.{Date}
use mint_flow.Analytics.Aggregates.{CurrencyTotal}
use mint_flow.Analytics.Periods.{DashboardPeriod, BucketGranularity}
use mint_flow.Domain.Money.{CurrencyCode, Money}

pub record Comparison : Type 0 where
  pub current_period : DashboardPeriod
  pub current_total_minor_units : ℕ
  pub previous_period : DashboardPeriod
  pub previous_total_minor_units : ℕ
  pub change_minor_units : ℤ
  pub change_basis_points : Option ℤ

pub record Summary : Type 0 where
  pub total_minor_units : ℕ
  pub count : ℕ
  pub comparison : Option Comparison

pub record TimeBucket : Type 0 where
  pub period : DashboardPeriod
  pub total_minor_units : ℕ
  pub count : ℕ

pub record SpendingOverTime : Type 0 where
  pub granularity : BucketGranularity
  pub buckets : List TimeBucket

pub record CategorySpending : Type 0 where
  pub category_key : Text
  pub category_name : Text
  pub total_minor_units : ℕ
  pub count : ℕ
  pub share_basis_points : ℤ

-- `merchant` is none for the group of the others
pub record MerchantSpending : Type 0 where
  pub merchant : Option Text
  pub total_minor_units : ℕ
  pub count : ℕ
  pub share_basis_points : ℤ

pub record TopMerchants : Type 0 where
  pub merchants : List MerchantSpending
  pub other : Option MerchantSpending

pub record LargestExpense : Type 0 where
  pub expense_id : ℕ
  pub money : Money
  pub merchant : Option Text
  pub transaction_date : Date
  pub converted_minor_units : Option ℕ

pub record Insights : Type 0 where
  pub largest_category : Option CategorySpending
  pub largest_expense : Option LargestExpense

pub record DashboardDetail : Type 0 where
  pub summary : Summary
  pub spending_over_time : SpendingOverTime
  pub categories : List CategorySpending
  pub top_merchants : TopMerchants
  pub insights : Insights

-- the rates that a converted dashboard used, and the totals that it could not convert
pub record Conversion (Rate : Type 0) : Type 0 where
  pub rates : List Rate
  pub unconverted : List CurrencyTotal

pub record Dashboard (Rate : Type 0) : Type 0 where
  pub period : DashboardPeriod
  pub currencies : List CurrencyTotal
  pub currency : Option CurrencyCode
  pub currency_selection_required : Bool
  pub detail : Option DashboardDetail
  pub conversion : Option (Conversion Rate)
