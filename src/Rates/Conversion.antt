-- ===== src/Rates/Conversion.antt =====
-- When a conversion has a result.
use mint_flow.Prelude.{
  ℕ, ◌≡◌, ◌↔◌, refl, inl, inr, Bool, true, false, ◌&&◌, Bool-cases, Option, none, some, is_some,
}
use mint_flow.Prelude.Decimal.{Decimal}
use mint_flow.Prelude.Result.{Result, ok, err}
use mint_flow.Domain.Money.{CurrencyCode, currency_eq}
use mint_flow.Rates.{
  ExchangeRates, RatesError, or_invalid, converted, convert, can_convert, units_per_eur_of,
}

-- what a conversion gives: nothing exactly without a rate, and else an amount or the exception of
-- decimals for a result of too many digits
Gives : Bool → Result RatesError (Option ℕ) → Type 0
Gives possible (ok none) = possible ≡ false
Gives possible (ok (some _)) = possible ≡ true
Gives possible (err _) = possible ≡ true

or_invalid-Gives : (o : Option ℕ) → Gives true (or_invalid o)
unfolding Gives
or_invalid-Gives none = refl
or_invalid-Gives (some n) = refl

with_rates-Gives :
    (n : ℕ) (s t : CurrencyCode) (a b : Option Decimal)
    → Gives (is_some a && is_some b) (converted n s t a b)
unfolding Gives converted
with_rates-Gives n s t none b = refl
with_rates-Gives n s t (some a) none = refl
with_rates-Gives n s t (some a) (some b) = or_invalid-Gives _

convert-Gives :
    (rates : ExchangeRates) (n : ℕ) (s t : CurrencyCode)
    → Gives (can_convert rates s t) (convert rates n s t)
unfolding convert can_convert Gives
convert-Gives rates n s t = elim (Bool-cases (currency_eq s t)) [
  | inl e ↦ rw e refl
  | inr e ↦ rw e (with_rates-Gives n s t (units_per_eur_of rates s) (units_per_eur_of rates t))
]

none_iff :
    (possible : Bool) (r : Result RatesError (Option ℕ))
    → Gives possible r
    → (r ≡ ok none) ↔ (possible ≡ false)
unfolding Gives
none_iff possible (ok none) g = (λ e. g, λ e. refl)
none_iff possible (ok (some n)) g = (λ e. cc, λ e. cc)
none_iff possible (err x) g = (λ e. cc, λ e. cc)

-- An amount converts to nothing exactly if `can_convert` denies it.
pub convert_iff :
    (rates : ExchangeRates) (n : ℕ) (s t : CurrencyCode)
    → (convert rates n s t ≡ ok none) ↔ (can_convert rates s t ≡ false)
convert_iff rates n s t =
    none_iff (can_convert rates s t) (convert rates n s t) (convert-Gives rates n s t)
