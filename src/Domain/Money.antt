-- ===== src/Domain/Money.antt =====
-- src/mintflow/domain/capture/money.py: currencies and exact minor-unit amounts. A `CurrencyCode`
-- wraps a string that its constructor has found in the catalogue, so it is one of seven values.
pub mod Laws
use mint_flow.Prelude.{
  ℕ, ◌+◌, ◌*◌, ◌^◌, Bool, ◌&&◌, Option, none, some, List, [], ◌∷◌, ltb, leb, find,
}
use mint_flow.Prelude.Text.{Text, Unicode, codes, strip, text_eq}
use mint_flow.Prelude.Result.{Result, ok, err, ◌>>◌, require, raise_if}
use mint_flow.Prelude.Int.{ℤ, pos, negsuc}
use mint_flow.Domain.Errors.{
  ValueError, unsupported_currency, negative_amount, amount_too_large, currency_mismatch,
}

abbrev pub max_major_units : ℕ
max_major_units = 999999999

pub data CurrencyCode : Type 0 where
  usd eur gbp pln uah jpy bhd : CurrencyCode

-- `CurrencyCode.value`
unfoldable pub currency_value : CurrencyCode → Text
currency_value usd = codes "USD"
currency_value eur = codes "EUR"
currency_value gbp = codes "GBP"
currency_value pln = codes "PLN"
currency_value uah = codes "UAH"
currency_value jpy = codes "JPY"
currency_value bhd = codes "BHD"

unfoldable pub minor_unit_exponent : CurrencyCode → ℕ
minor_unit_exponent jpy = 0
minor_unit_exponent bhd = 3
minor_unit_exponent _ = 2

abbrev pub supported_currency_codes : List CurrencyCode
supported_currency_codes = usd ∷ eur ∷ gbp ∷ pln ∷ uah ∷ jpy ∷ bhd ∷ []

abbrev pub index : CurrencyCode → ℕ
index usd = 0
index eur = 1
index gbp = 2
index pln = 3
index uah = 4
index jpy = 5
index bhd = 6

-- `==` on currencies
unfoldable pub currency_eq : CurrencyCode → CurrencyCode → Bool
currency_eq a b = leb (index a) (index b) && leb (index b) (index a)

abbrev pub or_unsupported : Option CurrencyCode → Result ValueError CurrencyCode
or_unsupported none = err unsupported_currency
or_unsupported (some c) = ok c

-- `CurrencyCode(value)`
unfoldable pub make_currency : ⦃u : Unicode⦄ → Text → Result ValueError CurrencyCode
unfolding strip text_eq currency_value
make_currency ⦃u⦄ value =
    let normalized = u.upper (strip value) in
    or_unsupported (find (λ c. text_eq (currency_value c) normalized) supported_currency_codes)

unfoldable pub max_minor_units : CurrencyCode → ℕ
unfolding minor_unit_exponent
max_minor_units currency = let scale = 10 ^ minor_unit_exponent currency in max_major_units * scale

pub record Money : Type 0 where
  pub minor_units : ℕ
  pub currency : CurrencyCode

-- `Money(minor_units=…, currency=…)`: the constructor refuses a negative amount, so the field is
-- a natural number.
unfoldable pub make_money : ℤ → CurrencyCode → Result ValueError Money
unfolding max_minor_units
make_money (negsuc n) currency = err negative_amount
make_money (pos n) currency = do
  raise_if (ltb (max_minor_units currency) n) amount_too_large
  ok (record { minor_units = n; currency = currency })

unfoldable pub require_same_currency : Money → Money → Result ValueError (Unit {0})
unfolding currency_eq
require_same_currency a b = require (currency_eq a.currency b.currency) currency_mismatch

-- `a + b`, `a < b`, `a <= b`, `a > b`, `a >= b`
unfoldable pub add : Money → Money → Result ValueError Money
unfolding make_money require_same_currency
add a b = do require_same_currency a b; make_money (pos (a.minor_units + b.minor_units)) a.currency

unfoldable pub lt : Money → Money → Result ValueError Bool
unfolding require_same_currency
lt a b = do require_same_currency a b; ok (ltb a.minor_units b.minor_units)

unfoldable pub le : Money → Money → Result ValueError Bool
unfolding require_same_currency
le a b = do require_same_currency a b; ok (leb a.minor_units b.minor_units)

unfoldable pub gt : Money → Money → Result ValueError Bool
unfolding require_same_currency
gt a b = do require_same_currency a b; ok (ltb b.minor_units a.minor_units)

unfoldable pub ge : Money → Money → Result ValueError Bool
unfolding require_same_currency
ge a b = do require_same_currency a b; ok (leb b.minor_units a.minor_units)
