-- ===== src/Telegram/Flow/Fields.antt =====
-- The answers to a question for a field: `_on_amount` to `_set_date` of
-- src/mintflow/telegram/capture_flow.py.
use mint_flow.Prelude.{ℕ, Bool, false, Option, none, some, is_none, if◌then◌else◌}
use mint_flow.Prelude.Datetime.{Datetime, astimezone_utc}
use mint_flow.Prelude.Decimal.{Decimal, scaleb}
use mint_flow.Prelude.Int.{pos, ◌-ℤ◌}
use mint_flow.Prelude.Result.{Result, ok, err}
use mint_flow.Prelude.Text.{Text, Unicode}
use mint_flow.Authentication.Store
use mint_flow.Authentication.Store.{TelegramConversation, AwaitingInput}
use mint_flow.Capture.Dates.{is_within_future_tolerance}
use mint_flow.Domain.Draft.{CaptureDraft, user}
use mint_flow.Domain.Draft.Edit.{set_amount, set_transaction_date, set_merchant}
use mint_flow.Domain.Errors.{ValueError}
use mint_flow.Domain.Money.{CurrencyCode, Money, minor_unit_exponent}
use mint_flow.Domain.User.{User}
use mint_flow.Domain.User.Preferences.{Zones}
use mint_flow.Domain.Values.{TransactionDate, MerchantName, make_merchant}
use mint_flow.Telegram.Conversation.{waiting_for}
use mint_flow.Telegram.Flow.{Flow, ◌>>=◌, ◌>>◌, pure, of_domain, of_conversation, save_conversation}
use mint_flow.Telegram.Flow.Cards.{
  Outgoing, reply, ask_amount, ask_amount_with_currency, invalid_amount, invalid_currency,
  invalid_merchant, invalid_date, future_date_typed,
}
use mint_flow.Telegram.Parsing.{
  ParseError, TypedAmount, parse_amount, parse_currency, parse_date, to_money,
}
use mint_flow.Telegram.Flow.Steps.{advance}

unfoldable pub set_money :
    Result ParseError Money
    → ℕ
    → Datetime
    → TelegramConversation
    → CaptureDraft
    → Bool
    → Flow Outgoing
    → Flow Outgoing
unfolding advance
set_money (err e) user_id now c draft is_default refusal = refusal
set_money (ok money) user_id now c draft is_default refusal = do
  changed ← of_domain (set_amount draft user_id money now user)
  advance user_id now c changed Store.merchant (some is_default)

unfoldable pub on_typed :
    TypedAmount
    → Option CurrencyCode
    → ℕ
    → Datetime
    → TelegramConversation
    → CaptureDraft
    → Flow Outgoing
unfolding advance to_money
on_typed typed none user_id now c draft = pure (reply ask_amount_with_currency)
on_typed typed (some currency) user_id now c draft =
    set_money (to_money typed.value currency) user_id now c draft (is_none typed.currency)
      (pure (reply invalid_amount))

-- `typed.currency or user.default_currency`
abbrev or_option : Option CurrencyCode → Option CurrencyCode → Option CurrencyCode
or_option none d = d
or_option (some c) d = some c

unfoldable pub on_parsed_amount :
    Result ParseError TypedAmount
    → User
    → Datetime
    → TelegramConversation
    → CaptureDraft
    → Flow Outgoing
unfolding advance to_money
on_parsed_amount (err e) u now c draft = pure (reply invalid_amount)
on_parsed_amount (ok typed) u now c draft =
    on_typed typed (or_option typed.currency u.default_currency) u.id now c draft

-- `_major_units`
unfoldable pub major_units : Money → Decimal
unfolding scaleb minor_unit_exponent
major_units m =
    scaleb (record { coefficient = m.minor_units; exponent = pos 0 })
      (pos 0 -ℤ pos (minor_unit_exponent m.currency))

abbrev ask_amount_again : Datetime → TelegramConversation → Flow Outgoing
ask_amount_again now c = do
  waiting ← of_conversation (waiting_for Store.amount (astimezone_utc now) c)
  save_conversation waiting
  pure (reply ask_amount)

unfoldable pub in_currency :
    Option Money → CurrencyCode → ℕ → Datetime → TelegramConversation → CaptureDraft → Flow Outgoing
unfolding advance to_money major_units
in_currency none currency user_id now c draft = pure (reply ask_amount)
in_currency (some amount) currency user_id now c draft =
    set_money (to_money (major_units amount) currency) user_id now c draft false
      (ask_amount_again now c)

unfoldable pub on_parsed_currency :
    Result ParseError CurrencyCode
    → ℕ
    → Datetime
    → TelegramConversation
    → CaptureDraft
    → Flow Outgoing
unfolding advance to_money major_units
on_parsed_currency (err e) user_id now c draft = pure (reply invalid_currency)
on_parsed_currency (ok currency) user_id now c draft =
    in_currency draft.amount currency user_id now c draft

unfoldable pub on_parsed_merchant :
    Result ValueError MerchantName
    → ℕ
    → Datetime
    → TelegramConversation
    → CaptureDraft
    → Flow Outgoing
unfolding advance
on_parsed_merchant (err e) user_id now c draft = pure (reply invalid_merchant)
on_parsed_merchant (ok merchant) user_id now c draft = do
  changed ← of_domain (set_merchant draft user_id merchant now user)
  advance user_id now c changed Store.category none

module _ ⦃u : Unicode⦄ where
  -- `_on_amount`, `_on_currency` and `_on_merchant`
  unfoldable pub on_amount :
      User → Datetime → TelegramConversation → CaptureDraft → Text → Flow Outgoing
  unfolding advance to_money parse_amount
  on_amount by now c draft text = on_parsed_amount (parse_amount text) by now c draft

  unfoldable pub on_currency :
      ℕ → Datetime → TelegramConversation → CaptureDraft → Text → Flow Outgoing
  unfolding advance to_money major_units parse_currency
  on_currency user_id now c draft text =
      on_parsed_currency (parse_currency text) user_id now c draft

unfoldable pub on_merchant :
    ℕ → Datetime → TelegramConversation → CaptureDraft → Text → Flow Outgoing
unfolding advance make_merchant
on_merchant user_id now c draft text = on_parsed_merchant (make_merchant text) user_id now c draft

module _ ⦃z : Zones⦄ where
  -- `_set_date`
  unfoldable pub set_date :
      User → Datetime → TelegramConversation → CaptureDraft → TransactionDate → Flow Outgoing
  unfolding advance
  set_date u now c draft transaction_date = do
    within ← of_domain (is_within_future_tolerance transaction_date now u.timezone)
    (if within
        then (of_domain (set_transaction_date draft u.id transaction_date now user) >>= λ changed.
            advance u.id now c changed Store.merchant none)
        else pure (reply future_date_typed))

  unfoldable pub on_parsed_date :
      Result ParseError TransactionDate
      → User
      → Datetime
      → TelegramConversation
      → CaptureDraft
      → Flow Outgoing
  unfolding set_date
  on_parsed_date (err e) by now c draft = pure (reply invalid_date)
  on_parsed_date (ok transaction_date) by now c draft = set_date by now c draft transaction_date

  -- `_on_date`
  unfoldable pub on_date :
      User → Datetime → TelegramConversation → CaptureDraft → Text → Flow Outgoing
  unfolding set_date parse_date
  on_date by now c draft text = on_parsed_date (parse_date text) by now c draft
