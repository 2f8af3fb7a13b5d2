-- ===== src/Tests/Rates.antt =====
-- Conversion at concrete rates, and a refresh from two sources.
use mint_flow.Prelude.{◌≡◌, refl, true, All, none, some, List, [], ◌∷◌, find}
use mint_flow.Prelude.Decimal.{div}
use mint_flow.Prelude.Int.{pos, negsuc}
use mint_flow.Prelude.Result.{ok}
use mint_flow.Prelude.Text.{codes, text_eq}
use mint_flow.Domain.Money.{eur, pln, jpy, currency_eq, currency_value, minor_unit_exponent}
use mint_flow.Rates
use mint_flow.Rates.{
  ExchangeRate, ExchangeRates, Source, RateRecord, convert, units_per_eur_of, RefreshResult,
  is_storable, column_units,
}
use mint_flow.Rates.Refresh.{published, is_wanted, stored}
use mint_flow.Rates.Saved.{Holds, execute-stored}

-- 4.2567 zloty per euro
abbrev zloty : ExchangeRate
zloty = record {
  currency = pln;
  units_per_eur = record { coefficient = 42567; exponent = negsuc 3 };
  rate_date = record { year = 2026; month = 5; day = 15 };
  source = codes "ECB";
}

abbrev zloty_elsewhere : ExchangeRate
zloty_elsewhere = record zloty {
  source = codes "NBU";
  units_per_eur = record { coefficient = 4; exponent = pos 0 };
}

-- 162 yen per euro
abbrev yen : ExchangeRate
yen = record zloty {
  currency = jpy;
  units_per_eur = record { coefficient = 162; exponent = pos 0 };
}

abbrev known : ExchangeRates
known = (codes "PLN", zloty) ∷ (codes "JPY", yen) ∷ []

-- 10.00 EUR are 42.57 PLN, and 1000 JPY are 26.28 PLN
to_zloty : convert known 1000 eur pln ≡ ok (some 4257)
unfolding convert units_per_eur_of text_eq currency_eq currency_value minor_unit_exponent
to_zloty = refl

from_yen : convert known 1000 jpy pln ≡ ok (some 2628)
unfolding convert units_per_eur_of text_eq currency_eq currency_value minor_unit_exponent
from_yen = refl

abbrev first_source : Source
first_source = record { name = codes "ECB"; fetch = some (zloty ∷ []) }

abbrev broken : Source
broken = record { name = codes "NBP"; fetch = none }

abbrev second_source : Source
second_source = record { name = codes "NBU"; fetch = some (zloty_elsewhere ∷ yen ∷ []) }

abbrev sources : List Source
sources = broken ∷ first_source ∷ second_source ∷ []

abbrev rows : List RateRecord
rows = record { code = codes "JPY"; rate = yen; fetched_at = 1 } ∷ []

published_fits : All (λ rate. is_storable rate ≡ true) (published sources)
unfolding is_storable column_units text_eq
published_fits = (refl, (refl, (refl, tt)))

execute-stored_example :
    (result : RefreshResult) × (rows' : List RateRecord) × (Rates.execute sources 2 rows
      ≡ ok (result, rows'))
    × Holds
        (find (is_wanted (codes "PLN")) (published sources))
        (stored (codes "PLN") rows)
        (stored (codes "PLN") rows')
execute-stored_example = execute-stored (codes "PLN") sources 2 rows published_fits

-- a third of a unit is kept with ten decimals
third :
    column_units (
      div
        (record { coefficient = 1; exponent = pos 0 })
        (record { coefficient = 3; exponent = pos 0 }))
    ≡ 3333333333
unfolding column_units div
third = refl
