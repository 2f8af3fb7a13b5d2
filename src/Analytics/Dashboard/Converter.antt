-- ===== src/Analytics/Dashboard/Converter.antt =====
-- `_Converter` of src/mintflow/application/analytics/dashboard.py, and the figures of the converted
-- dashboard. A computation with a converter carries the set of currencies that it has used.
use mint_flow.Prelude.{
  ℕ, Bool, ◌||◌, Option, none, some, List, [], ◌∷◌, ◌++◌, map, filter, if◌then◌else◌,
}
use mint_flow.Prelude.Result.{Result, ok, err}
use mint_flow.Analytics.Aggregates.{DailyTotal}
use mint_flow.Analytics.Errors.{AnalyticsError, no_rate, rates_error}
use mint_flow.Domain.Money
use mint_flow.Domain.Money.{CurrencyCode, currency_eq, currency_value, supported_currency_codes}
use mint_flow.Rates
use mint_flow.Rates.{ExchangeRate, ExchangeRates, RatesError, get_rate}

pub record ConvertTo : Type 0 where
  pub currency : CurrencyCode
  pub rates : ExchangeRates

-- the codes of `_used`, as a test
abbrev pub Used : Type 0
Used = CurrencyCode → Bool

abbrev pub Conv : Type 0 → Type 0
Conv A = Used → Result AnalyticsError (A × Used)

module _ {A B : Type 0} where
  infixl 5 ◌>>=◌
  abbrev pub ◌>>=◌ : Conv A → (A → Conv B) → Conv B
  ◌>>=◌ m rest used = elim (m used) [ err e ↦ err e | ok (a, used') ↦ rest a used' ]

module _ {A : Type 0} where
  abbrev pub pure : A → Conv A
  pure a used = ok (a, used)

  abbrev pub lift : Result AnalyticsError A → Conv A
  lift (ok a) used = ok (a, used)
  lift (err e) used = err e

abbrev with_used : CurrencyCode → CurrencyCode → Used → Used
unfolding currency_eq
with_used source target used c = currency_eq c source || (currency_eq c target || used c)

unfoldable pub can_convert : ConvertTo → CurrencyCode → Bool
unfolding Rates.can_convert
can_convert to currency = Rates.can_convert to.rates currency to.currency

abbrev note_used : ConvertTo → CurrencyCode → ℕ → Conv ℕ
unfolding currency_eq with_used
note_used to currency amount used =
    ok (
      amount,
      if currency_eq currency to.currency then used else with_used currency to.currency used,
    )

abbrev noted : ConvertTo → CurrencyCode → Result RatesError (Option ℕ) → Conv ℕ
unfolding note_used
noted to currency (err e) used = err (rates_error e)
noted to currency (ok none) used = err no_rate
noted to currency (ok (some amount)) used = note_used to currency amount used

unfoldable pub convert : ConvertTo → ℕ → CurrencyCode → Conv ℕ
unfolding Rates.convert noted
convert to minor_units currency =
    noted to currency (Rates.convert to.rates minor_units currency to.currency)

abbrev some_rates : List (Option ExchangeRate) → List ExchangeRate
some_rates [] = []
some_rates (none ∷ rest) = some_rates rest
some_rates (some rate ∷ rest) = rate ∷ some_rates rest

-- the catalogue in the order of the codes
abbrev pub sorted_codes : List CurrencyCode
sorted_codes =
    Money.bhd ∷ Money.eur ∷ Money.gbp ∷ Money.jpy ∷ Money.pln ∷ Money.uah ∷ Money.usd ∷ []

unfoldable pub used_rates : ConvertTo → Used → List ExchangeRate
unfolding get_rate currency_value
used_rates to used =
    some_rates (map (λ c. get_rate to.rates (currency_value c)) (filter used sorted_codes))

-- the days of each currency, in the order in which the currencies come first
unfoldable pub by_currency :
    List DailyTotal → List (CurrencyCode × List DailyTotal) → List (CurrencyCode × List DailyTotal)
unfolding currency_eq
by_currency [] groups = groups
by_currency (d ∷ daily) groups = by_currency daily (place groups)
  where
    place : List (CurrencyCode × List DailyTotal) → List (CurrencyCode × List DailyTotal)
    place [] = (d.currency, d ∷ []) ∷ []
    place ((c, days) ∷ rest) =
        if currency_eq c d.currency then (c, days ++ d ∷ []) ∷ rest else (c, days) ∷ place rest
