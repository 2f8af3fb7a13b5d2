-- ===== src/Analytics/Dashboard/Build.antt =====
-- `BuildDashboard.execute` of src/mintflow/application/analytics/dashboard.py.
use mint_flow.Prelude.{
  ℕ, Bool, true, false, ◌&&◌, not, Option, none, some, List, map, filter, is_some,
}
use mint_flow.Prelude.Datetime.{Datetime}
use mint_flow.Prelude.Result.{Result, ok, err, ◌>>=◌, ◌>>◌, raise_if}
use mint_flow.Calendar.{Date}
use mint_flow.Analytics.Aggregates.{CurrencyTotal, AnalyticsRepository}
use mint_flow.Analytics.Dashboard.{Dashboard, DashboardDetail}
use mint_flow.Analytics.Dashboard.Converter.{ConvertTo, Conv, Used, can_convert, used_rates}
use mint_flow.Analytics.Dashboard.Detail.{detail, converted_detail}
use mint_flow.Analytics.Dashboard.Figures.{resolve_currency, empty_detail}
use mint_flow.Analytics.Errors.{AnalyticsError, both_modes, user_not_found}
use mint_flow.Analytics.Periods.{DashboardPeriod, local_today, default_period}
use mint_flow.Domain.Money.{CurrencyCode}
use mint_flow.Domain.User.{User}
use mint_flow.Domain.User.Preferences.{Zones}
use mint_flow.Rates.{ExchangeRate}

pub record UserRepository : Type 0 where
  pub get : ℕ → Option User

-- the value of a computation that starts without any used currency, and the currencies it used
abbrev run : {A : Type 0} → Conv A → Result AnalyticsError (A × Used)
run m = m (λ _. false)

module _ ⦃analytics : AnalyticsRepository⦄ where
  unfoldable pub converted_dashboard :
      ConvertTo
      → ℕ
      → DashboardPeriod
      → List CurrencyTotal
      → Date
      → Result AnalyticsError (Dashboard ExchangeRate)
  unfolding converted_detail used_rates can_convert
  converted_dashboard to caller_id period currencies today =
      run (converted_detail to caller_id period currencies today) >>= λ found. ok (record {
        period = period;
        currencies = currencies;
        currency = some to.currency;
        currency_selection_required = false;
        detail = some found.0;
        conversion = some (record {
          rates = used_rates to found.1;
          unconverted = filter (λ (t : CurrencyTotal). not (can_convert to t.currency)) currencies;
        });
      })

  unfoldable pub selected_detail :
      Option CurrencyCode × Bool
      → ℕ
      → DashboardPeriod
      → List CurrencyTotal
      → Date
      → Result AnalyticsError (Option DashboardDetail)
  unfolding detail empty_detail
  selected_detail (selected, true) caller_id period currencies today = ok none
  selected_detail (none, false) caller_id period currencies today =
      empty_detail period >>= λ d. ok (some d)
  selected_detail (some currency, false) caller_id period currencies today =
      run (detail caller_id period currency currencies today) >>= λ found. ok (some found.0)

  unfoldable pub selected_dashboard :
      Option CurrencyCode × Bool
      → ℕ
      → DashboardPeriod
      → List CurrencyTotal
      → Date
      → Result AnalyticsError (Dashboard ExchangeRate)
  unfolding selected_detail
  selected_dashboard selection caller_id period currencies today =
      selected_detail selection caller_id period currencies today >>= λ shown. ok (record {
        period = period;
        currencies = currencies;
        currency = selection.0;
        currency_selection_required = selection.1;
        detail = shown;
        conversion = none;
      })

  unfoldable pub build :
      Option CurrencyCode
      → Option ConvertTo
      → User
      → ℕ
      → DashboardPeriod
      → Date
      → Result AnalyticsError (Dashboard ExchangeRate)
  unfolding converted_dashboard selected_dashboard resolve_currency
  build currency (some to) user caller_id period today =
      converted_dashboard to caller_id period (analytics.currency_totals caller_id period) today
  build currency none user caller_id period today =
      let currencies = analytics.currency_totals caller_id period in
      selected_dashboard
        (resolve_currency currency (map (λ (t : CurrencyTotal). t.currency) currencies)
          user.default_currency)
        caller_id period currencies today

unfoldable pub or_missing : Option User → Result AnalyticsError User
or_missing none = err user_not_found
or_missing (some user) = ok user

unfoldable pub or_default_period :
    ⦃z : Zones⦄ → Option DashboardPeriod → Datetime → User → Result AnalyticsError DashboardPeriod
unfolding default_period
or_default_period none now user = default_period now user.timezone
or_default_period (some period) now user = ok period

-- the use case; `now` is what the clock says
unfoldable pub execute :
    ⦃analytics : AnalyticsRepository⦄ ⦃users : UserRepository⦄ ⦃z : Zones⦄
    → ℕ
    → Option DashboardPeriod
    → Option CurrencyCode
    → Option ConvertTo
    → Datetime
    → Result AnalyticsError (Dashboard ExchangeRate)
unfolding build local_today or_default_period or_missing
execute ⦃analytics⦄ ⦃users⦄ caller_id period currency convert_to now = do
  raise_if (is_some currency && is_some convert_to) both_modes
  user ← or_missing (users.get caller_id)
  shown ← or_default_period period now user
  today ← local_today now user.timezone
  build currency convert_to user caller_id shown today
