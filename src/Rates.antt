-- ===== src/Rates.antt =====
-- src/mintflow/application/rates/rates.py and infrastructure/persistence/exchange_rates.py: the rates
-- that totals are shown with, conversion at them, and their refresh from the sources.
pub mod Conversion
pub mod Refresh
pub mod Stored
pub mod Saved
use mint_flow.Prelude.{
  ℕ, zero, suc, ◌+◌, ◌*◌, ◌/◌, ◌^◌, ltb, Bool, true, false, ◌&&◌, ◌||◌, not, Option, none, some,
  List, [], ◌∷◌, ◌++◌, map, filter, find, is_some, is_none, ◌==◌, if◌then◌else◌, sort_by,
}
use mint_flow.Prelude.Datetime.{Instant}
use mint_flow.Prelude.Decimal.{Decimal, mul, div, scaleb, to_integer}
use mint_flow.Prelude.Int.{ℤ, pos, sub_ℕ, pos_part, neg_part}
use mint_flow.Prelude.Result.{Result, ok, err, ◌>>=◌, ◌>>◌, raise_if}
use mint_flow.Prelude.Text.{Text, Unicode, codes, text_eq, text_lt}
use mint_flow.Calendar.{Date}
use mint_flow.Domain.Errors.{ValueError}
use mint_flow.Domain.Money.{
  CurrencyCode, eur, currency_value, currency_eq, minor_unit_exponent, make_currency,
  supported_currency_codes,
}

-- `not_a_rate` is the `ValueError` of the constructor, `invalid_operation` that of a result of
-- more digits than decimals keep, and `database_error` a value that the table does not take
pub data RatesError : Type 0 where
  not_a_rate invalid_operation database_error : RatesError

pub record ExchangeRate : Type 0 where
  pub currency : CurrencyCode
  pub units_per_eur : Decimal
  pub rate_date : Date
  pub source : Text

-- `ExchangeRate(…)`; decimals of the model are finite and not negative
unfoldable pub make_rate : ExchangeRate → Result RatesError ExchangeRate
make_rate rate = do raise_if (rate.units_per_eur.coefficient == 0) not_a_rate; ok rate

-- the rates by code
abbrev pub ExchangeRates : Type 0
ExchangeRates = List (Text × ExchangeRate)

unfoldable pub get_rate : ExchangeRates → Text → Option ExchangeRate
unfolding text_eq
get_rate rates code = elim (find (λ (entry : Text × ExchangeRate). text_eq entry.0 code) rates) [
  | none ↦ none
  | some entry ↦ some entry.1
]

abbrev one : Decimal
one = record { coefficient = 1; exponent = pos 0 }

unfoldable pub units_per_eur_of : ExchangeRates → CurrencyCode → Option Decimal
unfolding get_rate currency_eq currency_value
units_per_eur_of rates currency =
    if currency_eq currency eur then some one else elim (get_rate rates (currency_value currency)) [
      | none ↦ none
      | some rate ↦ some rate.units_per_eur
    ]

unfoldable pub has_rate : ExchangeRates → CurrencyCode → Bool
unfolding units_per_eur_of
has_rate rates currency = is_some (units_per_eur_of rates currency)

unfoldable pub can_convert : ExchangeRates → CurrencyCode → CurrencyCode → Bool
unfolding units_per_eur_of currency_eq
can_convert rates source target =
    currency_eq source target
    || (is_some (units_per_eur_of rates source) && is_some (units_per_eur_of rates target))

abbrev or_invalid : Option ℕ → Result RatesError (Option ℕ)
or_invalid none = err invalid_operation
or_invalid (some n) = ok (some n)

abbrev converted :
    ℕ → CurrencyCode → CurrencyCode → Option Decimal → Option Decimal → Result RatesError (Option ℕ)
unfolding minor_unit_exponent mul div scaleb to_integer
converted minor_units source target none _ = ok none
converted minor_units source target (some _) none = ok none
converted minor_units source target (some source_rate) (some target_rate) =
    let major =
      scaleb (record { coefficient = minor_units; exponent = pos 0 })
        (sub_ℕ 0 (minor_unit_exponent source)) in
    or_invalid (
      to_integer
        (scaleb (mul (div major source_rate) target_rate) (pos (minor_unit_exponent target))))

-- `ExchangeRates.convert`
unfoldable pub convert :
    ExchangeRates → ℕ → CurrencyCode → CurrencyCode → Result RatesError (Option ℕ)
unfolding converted units_per_eur_of currency_eq
convert rates minor_units source target =
    if currency_eq source target
    then ok (some minor_units)
    else converted minor_units source target (units_per_eur_of rates source)
        (units_per_eur_of rates target)

pub record Source : Type 0 where
  pub name : Text
  -- none is `ExchangeRateSourceFailed`
  pub fetch : Option (List ExchangeRate)

pub record RateRecord : Type 0 where
  pub code : Text
  pub rate : ExchangeRate
  pub fetched_at : Instant

pub record RefreshResult : Type 0 where
  pub saved : List Text
  pub failed_sources : List Text

abbrev pub code_of : ExchangeRate → Text
unfolding currency_value
code_of rate = currency_value rate.currency

abbrev pub wanted : List Text
unfolding currency_eq currency_value
wanted = map currency_value (filter (λ c. not (currency_eq c eur)) supported_currency_codes)

abbrev pub has_text : Text → List Text → Bool
unfolding text_eq
has_text t ts = is_some (find (text_eq t) ts)

abbrev pub is_code : Text → ExchangeRate → Bool
unfolding code_of text_eq
is_code code rate = text_eq (code_of rate) code

-- `chosen` maps each code to its rate; its keys are the codes of its rates
unfoldable pub choose : List ExchangeRate → List ExchangeRate → List ExchangeRate
unfolding has_text is_code code_of wanted
choose chosen [] = chosen
choose chosen (rate ∷ rates) =
    choose
      (if has_text (code_of rate) wanted && is_none (find (is_code (code_of rate)) chosen)
        then chosen ++ rate ∷ []
        else chosen)
      rates

abbrev fetched : Source → List ExchangeRate → List ExchangeRate
unfolding choose
fetched source chosen = elim source.fetch [ none ↦ chosen | some rates ↦ choose chosen rates ]

unfoldable pub choose_all : List ExchangeRate → List Source → List ExchangeRate
unfolding fetched
choose_all chosen [] = chosen
choose_all chosen (source ∷ sources) = choose_all (fetched source chosen) sources

abbrev failed : Source → Bool
failed source = is_none source.fetch

-- n / d, rounded half up, as the database rounds numbers that are not negative
abbrev pub div_half_up : ℕ → ℕ → ℕ
div_half_up n d = (n * 2 + d) / (d * 2)

-- the decimals after the point and all digits of `Numeric(24, 10)`, the column `units_per_eur`
abbrev pub column_scale : ℕ
column_scale = 10

abbrev pub column_precision : ℕ
column_precision = 24

-- the number of units of 10 ^ -10 that the column holds for a value
unfoldable pub column_units : Decimal → ℕ
column_units d =
    div_half_up (d.coefficient * 10 ^ pos_part d.exponent * 10 ^ column_scale)
      (10 ^ neg_part d.exponent)

unfoldable pub in_column : ExchangeRate → ExchangeRate
unfolding column_units
in_column rate = record rate {
  units_per_eur = record {
    coefficient = column_units rate.units_per_eur;
    exponent = sub_ℕ 0 column_scale;
  };
}

-- the column has room for the value, and the check constraints hold of the row
unfoldable pub is_storable : ExchangeRate → Bool
unfolding column_units text_eq
is_storable rate =
    ltb (column_units rate.units_per_eur) (10 ^ column_precision)
    && (ltb 0 (column_units rate.units_per_eur)
        && (text_eq rate.source (codes "ECB") || text_eq rate.source (codes "NBU")))

-- the rows' values as the table takes them, or the error of the whole statement
unfoldable pub column_values : List ExchangeRate → Result RatesError (List ExchangeRate)
unfolding is_storable in_column
column_values [] = ok []
column_values (rate ∷ rates) = do
  raise_if (not (is_storable rate)) database_error
  rest ← column_values rates
  ok (in_column rate ∷ rest)

-- one row of the insert; a row with the code is replaced
unfoldable pub upsert : Instant → List RateRecord → ExchangeRate → List RateRecord
unfolding code_of text_eq
upsert fetched_at [] rate =
    record { code = code_of rate; rate = rate; fetched_at = fetched_at } ∷ []
upsert fetched_at (row ∷ rows) rate =
    let rest = upsert fetched_at rows rate in
    if text_eq row.code (code_of rate)
    then record { code = row.code; rate = rate; fetched_at = fetched_at } ∷ rows
    else row ∷ rest

unfoldable pub upsert_all : Instant → List ExchangeRate → List RateRecord → List RateRecord
unfolding upsert
upsert_all fetched_at [] rows = rows
upsert_all fetched_at (rate ∷ rates) rows =
    upsert_all fetched_at rates (upsert fetched_at rows rate)

unfoldable pub save :
    Instant → List ExchangeRate → List RateRecord → Result RatesError (List RateRecord)
unfolding column_values upsert_all
save fetched_at rates rows = do values ← column_values rates; ok (upsert_all fetched_at values rows)

abbrev kept : Result ValueError CurrencyCode → ExchangeRate → ExchangeRates → ExchangeRates
unfolding currency_value
kept (ok currency) rate rest = (currency_value currency, record rate { currency = currency }) ∷ rest
kept (err _) rate rest = rest

-- the rows of currencies that are in the catalogue
unfoldable pub latest : ⦃u : Unicode⦄ → List RateRecord → ExchangeRates
unfolding make_currency kept
latest [] = []
latest (row ∷ rows) = kept (make_currency row.code) row.rate (latest rows)

abbrev pub result_of : List Source → List ExchangeRate → RefreshResult
unfolding code_of text_lt
result_of sources chosen = record {
  saved = sort_by text_lt (map code_of chosen);
  failed_sources = map (λ (s : Source). s.name) (filter failed sources);
}

unfoldable pub execute :
    List Source → Instant → List RateRecord → Result RatesError (RefreshResult × List RateRecord)
unfolding choose_all save result_of
execute sources now rows = do
  let chosen = choose_all [] sources
  rows' ← save now chosen rows
  ok (result_of sources chosen, rows')
