-- ===== src/Telegram/Parsing.antt =====
-- src/mintflow/telegram/parsing.py: what a person types for an amount, a currency and a date. The
-- parts of the regular expressions match disjoint characters, so that each text is read in one way.
-- Formatting is left out.
use mint_flow.Prelude.{
  ℕ, ◌+◌, ◌-◌, ◌*◌, ◌/◌, ◌%◌, ◌^◌, Bool, false, Option, none, some, [], ◌∷◌, ◌++◌, ◌&&◌, ◌||◌, ◌==◌,
  not, leb, length, if◌then◌else◌,
}
use mint_flow.Prelude.Decimal.{Decimal, scaleb}
use mint_flow.Prelude.Int.{pos, ◌-ℤ◌, pos_part, neg_part}
use mint_flow.Prelude.Result.{Result, ok, err, ◌>>=◌, ◌>>◌, require, raise_if, map_error}
use mint_flow.Prelude.Text.{Text, Unicode, is_empty, lstrip, strip}
use mint_flow.Calendar.{Date, days_in_month}
use mint_flow.Domain.Errors.{ValueError}
use mint_flow.Domain.Money.{CurrencyCode, Money, minor_unit_exponent, make_currency, make_money}
use mint_flow.Domain.Values.{TransactionDate, make_transaction_date}

pub data ParseError : Type 0 where
  not_an_amount not_greater_than_zero too_many_decimals not_a_date not_a_valid_date : ParseError
  refused : ValueError → ParseError

pub record TypedAmount : Type 0 where
  pub value : Decimal
  pub currency : Option CurrencyCode

abbrev is_digit : ℕ → Bool
is_digit c = leb b'0' c && leb c b'9'

abbrev is_letter : ℕ → Bool
is_letter c = (leb b'A' c && leb c b'Z') || (leb b'a' c && leb c b'z')

-- the digits that a text starts with, and the rest
abbrev pub digits_of : Text → Text
digits_of [] = []
digits_of (c ∷ s) = if is_digit c then c ∷ digits_of s else []

abbrev pub after_digits : Text → Text
after_digits [] = []
after_digits (c ∷ s) = if is_digit c then after_digits s else c ∷ s

-- `int(s)` of a text of digits, after those that were read
abbrev int_from : ℕ → Text → ℕ
int_from read [] = read
int_from read (c ∷ s) = int_from (read * 10 + (c - b'0')) s

abbrev pub int_of : Text → ℕ
int_of s = int_from 0 s

-- `(?:[.,][0-9]+)?`: the digits of the fraction
abbrev pub fraction_of : Text → Text
fraction_of [] = []
fraction_of (c ∷ s) = if c == b'.' || c == b',' then digits_of s else []

abbrev pub after_fraction : Text → Text
after_fraction [] = []
after_fraction (c ∷ s) =
    if (c == b'.' || c == b',') && not (is_empty (digits_of s)) then after_digits s else c ∷ s

-- `[A-Za-z]{3}`
abbrev is_code : Text → Bool
is_code (a ∷ b ∷ c ∷ []) = is_letter a && (is_letter b && is_letter c)
is_code _ = false

-- `(?:\s*(?P<currency>[A-Za-z]{3}))?` up to the end of the text
abbrev is_rest : Text → Bool
unfolding lstrip
is_rest rest = is_empty rest || is_code (lstrip rest)

abbrev typed_currency : ⦃u : Unicode⦄ → Text → Result ParseError (Option CurrencyCode)
unfolding lstrip make_currency
typed_currency rest =
    if is_empty rest
    then ok none
    else (map_error refused (make_currency (lstrip rest)) >>= λ currency. ok (some currency))

abbrev typed_value : Text → Text → Decimal
typed_value major fraction = record {
  coefficient = int_of (major ++ fraction);
  exponent = pos 0 -ℤ pos (length fraction);
}

unfoldable pub parse_amount : ⦃u : Unicode⦄ → Text → Result ParseError TypedAmount
unfolding strip lstrip make_currency
parse_amount text = do
  let s = strip text
  let major = digits_of s
  let fraction = fraction_of (after_digits s)
  let rest = after_fraction (after_digits s)
  require (not (is_empty major) && is_rest rest) not_an_amount
  let value = typed_value major fraction
  raise_if (value.coefficient == 0) not_greater_than_zero
  currency ← typed_currency rest
  ok (record { value = value; currency = currency })

-- `scaled == scaled.to_integral_value()`
abbrev pub is_integral : Decimal → Bool
is_integral d = d.coefficient * 10 ^ pos_part d.exponent % 10 ^ neg_part d.exponent == 0

-- `int(scaled)`
abbrev pub int_part : Decimal → ℕ
int_part d = d.coefficient * 10 ^ pos_part d.exponent / 10 ^ neg_part d.exponent

unfoldable pub to_money : Decimal → CurrencyCode → Result ParseError Money
unfolding scaleb minor_unit_exponent make_money
to_money value currency = do
  let scaled = scaleb value (pos (minor_unit_exponent currency))
  require (is_integral scaled) too_many_decimals
  map_error refused (make_money (pos (int_part scaled)) currency)

unfoldable pub parse_currency : ⦃u : Unicode⦄ → Text → Result ParseError CurrencyCode
unfolding strip make_currency
parse_currency text = map_error refused (make_currency (strip text))

abbrev pub is_date : Date → Bool
unfolding days_in_month
is_date d =
    (leb 1 d.year && leb d.year 9999)
    && ((leb 1 d.month && leb d.month 12)
        && (leb 1 d.day && leb d.day (days_in_month d.year d.month)))

-- `TransactionDate(date(year, month, day))`, of which either may raise
unfoldable pub date_of : Date → Result ParseError TransactionDate
unfolding days_in_month make_transaction_date
date_of d = do
  require (is_date d) not_a_valid_date
  map_error (λ e. not_a_valid_date) (make_transaction_date d)

abbrev digit : ℕ → ℕ
digit c = c - b'0'

-- `[0-9]{4}-[0-9]{2}-[0-9]{2}`
abbrev read_iso : Text → Option Date
read_iso (a ∷ b ∷ c ∷ d ∷ s ∷ e ∷ f ∷ t ∷ g ∷ h ∷ []) =
    if (is_digit a && (is_digit b && (is_digit c && is_digit d)))
      && ((s == b'-' && (is_digit e && is_digit f)) && (t == b'-' && (is_digit g && is_digit h)))
    then some (record {
      year = digit a * 1000 + digit b * 100 + digit c * 10 + digit d;
      month = digit e * 10 + digit f;
      day = digit g * 10 + digit h;
    })
    else none
read_iso _ = none

abbrev one_or_two : Text → Bool
one_or_two s = leb 1 (length s) && leb (length s) 2

abbrev tail_of : Text → Text
tail_of [] = []
tail_of (_ ∷ s) = s

abbrev starts_with_dot : Text → Bool
starts_with_dot [] = false
starts_with_dot (c ∷ s) = c == b'.'

-- `[0-9]{1,2}\.[0-9]{1,2}\.[0-9]{4}`
abbrev read_dotted : Text → Option Date
read_dotted s =
    let after_day = after_digits s in
    let after_month = after_digits (tail_of after_day) in
    let year = tail_of after_month in
    if (one_or_two (digits_of s) && starts_with_dot after_day)
      && ((one_or_two (digits_of (tail_of after_day)) && starts_with_dot after_month)
          && (length (digits_of year) == 4 && is_empty (after_digits year)))
    then some (record {
      year = int_of year;
      month = int_of (digits_of (tail_of after_day));
      day = int_of (digits_of s);
    })
    else none

abbrev first_date : Option Date → Option Date → Result ParseError TransactionDate
first_date (some d) dotted = date_of d
first_date none (some d) = date_of d
first_date none none = err not_a_date

unfoldable pub parse_date : Text → Result ParseError TransactionDate
unfolding strip date_of
parse_date text =
    let candidate = strip text in first_date (read_iso candidate) (read_dotted candidate)
