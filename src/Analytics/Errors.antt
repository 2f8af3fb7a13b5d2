-- ===== src/Analytics/Errors.antt =====
-- The exceptions of src/mintflow/application/analytics, with a constructor for each message, and
-- one for a loop of the model that its fuel would end.
use mint_flow.Rates.{RatesError}

pub data AnalyticsError : Type 0 where
  period_reversed period_too_long period_years : AnalyticsError
  naive_now : AnalyticsError
  rates_error : RatesError → AnalyticsError
  both_modes no_rate user_not_found : AnalyticsError
  out_of_rounds : AnalyticsError
