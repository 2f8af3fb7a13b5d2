-- ===== src/Tests/Dashboard.antt =====
-- A dashboard of expenses in two currencies, of a user without a default currency.
use mint_flow.Prelude.{◌≡◌, refl, false, true, ◌&&◌, none, some, [], ◌∷◌, is_some}
use mint_flow.Prelude.Datetime.{Datetime, aware}
use mint_flow.Prelude.Int.{pos}
use mint_flow.Prelude.Result.{ok}
use mint_flow.Prelude.Text.{codes}
use mint_flow.Analytics.Aggregates.{AnalyticsRepository}
use mint_flow.Analytics.Dashboard.{Dashboard}
use mint_flow.Analytics.Dashboard.Build.{UserRepository, execute}
use mint_flow.Analytics.Dashboard.Converter.{ConvertTo}
use mint_flow.Analytics.Dashboard.Outcome.{execute-IsConsistent, IsConsistent}
use mint_flow.Domain.Money.{CurrencyCode, eur, usd}
use mint_flow.Domain.User
use mint_flow.Domain.User.{User}
use mint_flow.Domain.User.Preferences.{Zones}
use mint_flow.Rates.{ExchangeRate}
use mint_flow.Tests.Analytics.{spring, march}

instance abbrev utc_zone : Zones
utc_zone = record { available = λ name. true; local_date = λ name t. march }

instance abbrev totals : AnalyticsRepository
totals = record {
  currency_totals = λ owner period.
      record { currency = eur; total_minor_units = 1250; count = 1 }
      ∷ record { currency = usd; total_minor_units = 300; count = 1 }
      ∷ [];
  daily_totals = λ owner period currency. [];
  category_totals = λ owner period currency. [];
  merchant_totals = λ owner period currency. [];
  largest_expense = λ owner period currency. none;
}

abbrev owner : User
owner = record {
  id = 2;
  status = User.active;
  created_at = aware 1 (pos 0);
  deactivated_at = none;
  timezone = record { value = codes "UTC" };
  default_currency = none;
  ui_language = record { value = codes "en" };
  locale = none;
}

instance abbrev one_user : UserRepository
one_user = record { get = λ user_id. some owner }

abbrev to_select : Dashboard ExchangeRate
to_select = record {
  period = spring;
  currencies = totals.currency_totals 2 spring;
  currency = none;
  currency_selection_required = true;
  detail = none;
  conversion = none;
}

abbrev noon : Datetime
noon = aware 1000 (pos 0)

selection : execute 2 (some spring) none none noon ≡ ok to_select
unfolding execute
selection = refl

execute-IsConsistent_example :
    IsConsistent none to_select
    × ((is_some {A = CurrencyCode} none && is_some {A = ConvertTo} none) ≡ false)
execute-IsConsistent_example =
    execute-IsConsistent 2 (some spring) none none noon to_select selection
