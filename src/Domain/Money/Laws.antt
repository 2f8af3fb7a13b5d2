-- ===== src/Domain/Money/Laws.antt =====
-- Which texts are currencies, and which amounts add up.
use mathlib.Core.Path.{subst}
use mint_flow.Prelude.{
  ℕ, ◌+◌, ◌≤◌, ◌≡◌, ◌↔◌, refl, sym, ap, ◌∙◌, Bool, true, false, Option, none, some, ltb, find,
  find_satisfies, arith, Bool-cases, inl, inr,
}
use mint_flow.Prelude.Result.{Result, ok, err, ok_injective, ◌>>◌, require, raise_if}
use mint_flow.Prelude.Text.{Text, Unicode, strip, text_eq, text_eq→eq}
use mint_flow.Domain.Errors.{ValueError, currency_mismatch, amount_too_large}
use mint_flow.Domain.Money.{
  CurrencyCode, usd, eur, gbp, pln, uah, jpy, bhd, currency_value, currency_eq, make_currency,
  or_unsupported, supported_currency_codes, Money, make_money, require_same_currency,
  max_minor_units, add,
}

found_currency :
    (t : Text) (o : Option CurrencyCode) {c : CurrencyCode}
    → find (λ d. text_eq (currency_value d) t) supported_currency_codes ≡ o
    → or_unsupported o ≡ ok c
    → t ≡ currency_value c
found_currency t none e h = cc
found_currency t (some d) {c = c} e h =
    sym (
      text_eq→eq (currency_value d) t
        (find_satisfies (λ x. text_eq (currency_value x) t) supported_currency_codes e))
    ∙ ap currency_value (sym (ok_injective h))

own_code :
    (c : CurrencyCode)
    → or_unsupported
        (find (λ d. text_eq (currency_value d) (currency_value c)) supported_currency_codes)
      ≡ ok c
unfolding text_eq currency_value
own_code usd = refl
own_code eur = refl
own_code gbp = refl
own_code pln = refl
own_code uah = refl
own_code jpy = refl
own_code bhd = refl

-- A text is accepted as a currency exactly if, without the white space around it and in upper case,
-- it is the code of that currency.
pub make_currency_iff :
    ⦃u : Unicode⦄ (value : Text) (c : CurrencyCode)
    → (make_currency value ≡ ok c) ↔ (u.upper (strip value) ≡ currency_value c)
unfolding make_currency
make_currency_iff ⦃u⦄ value c = (
  λ h.
      found_currency (u.upper (strip value))
        (find (λ d. text_eq (currency_value d) (u.upper (strip value))) supported_currency_codes)
        refl h,
  λ e. rw e (own_code c),
)

pub currency_eq→eq : (c d : CurrencyCode) → currency_eq c d ≡ true → c ≡ d
unfolding currency_eq
currency_eq→eq c d h = ground arith

pub currency_eq_refl : (c : CurrencyCode) → currency_eq c c ≡ true
unfolding currency_eq
currency_eq_refl c = ground arith

checked_sum :
    (same : Bool) (m n : ℕ) (t s : Money)
    → ((require same currency_mismatch >> (raise_if (ltb m n) amount_too_large >> ok t)) ≡ ok s)
      ↔ ((same ≡ true) × (n ≤ m) × (s ≡ t))
checked_sum false m n t s = (λ h. cc, λ h. cc)
checked_sum true m n t s = elim (Bool-cases (ltb m n)) [
  | inl over ↦ (λ h. refuse (rw over at h), λ h. too_much over h.1)
  | inr within ↦
      (λ h. (refl, fits within, ok_injective (rw within at h)), λ h. rw (within, h.2) refl)
]
  where
    refuse : {P : Type 0} → ◌≡◌ {A = Result ValueError Money} (err amount_too_large) (ok s) → P
    refuse h = cc

    too_much : {P : Type 0} → ltb m n ≡ true → n ≤ m → P
    too_much p q = ground arith

    fits : ltb m n ≡ false → n ≤ m
    fits p = ground arith

-- Two amounts add up exactly if they are of one currency and their sum is not above the maximum of
-- the currency; the result is their sum in it.
pub add_iff :
    (a b s : Money)
    → (add a b ≡ ok s) ↔ (
        (a.currency ≡ b.currency)
        × (a.minor_units + b.minor_units ≤ max_minor_units a.currency)
        × (s ≡ record { minor_units = a.minor_units + b.minor_units; currency = a.currency }))
unfolding add make_money require_same_currency
add_iff a b s =
    let t : Money = record { minor_units = a.minor_units + b.minor_units; currency = a.currency } in
    let (to, from) =
      checked_sum (currency_eq a.currency b.currency) (max_minor_units a.currency)
        (a.minor_units + b.minor_units) t s in
    (
      λ h.
          let (same, within, sum) = to h in
          (currency_eq→eq a.currency b.currency same, within, sum),
      λ h. from (
        subst (λ c. currency_eq a.currency c ≡ true) h.0 (currency_eq_refl a.currency),
        h.1,
        h.2,
      ),
    )
