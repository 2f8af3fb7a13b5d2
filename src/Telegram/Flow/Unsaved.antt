-- ===== src/Telegram/Flow/Unsaved.antt =====
-- The steps of src/mintflow/telegram/capture_flow.py that save no expense.
pub mod Entries
use mint_flow.Prelude.{ℕ, Bool, true, false, Option, none, some, List, ◌≡◌, refl, ◌≢◌}
use mint_flow.Prelude.Datetime.{Datetime}
use mint_flow.Prelude.Result.{Result, ok, err}
use mint_flow.Prelude.Text.{Text, Unicode}
use mint_flow.Authentication.Store
use mint_flow.Authentication.Store.{TelegramConversation, AwaitingInput}
use mint_flow.Domain.Draft.{CaptureDraft}
use mint_flow.Domain.Errors.{ValueError}
use mint_flow.Domain.Money.{Money, CurrencyCode}
use mint_flow.Domain.User.{User}
use mint_flow.Domain.User.Preferences.{Zones}
use mint_flow.Domain.Values.{TransactionDate, MerchantName}
use mint_flow.Telegram.Flow.{Bot, Drawn, Flow}
use mint_flow.Telegram.Flow.Cards
use mint_flow.Telegram.Flow.Cards.{Outgoing, Message, DraftAction, CallbackData, Command}
use mint_flow.Telegram.Flow.Steps.{
  active_draft, active_or_finish, active_of, cancel_draft, show_review, advance, with_default,
  create_manual_draft, create_receipt_draft,
}
use mint_flow.Telegram.Flow.Fields.{
  set_money, on_typed, on_parsed_amount, in_currency, on_parsed_currency, on_parsed_merchant,
  on_parsed_date, on_amount, on_currency, on_merchant, on_date, set_date,
}
use mint_flow.Telegram.Flow.Updates.{
  on_awaited, text_with, on_text, start_with, start_capture, media_with, on_media, cancel_with,
  on_command, button_with, on_callback,
}
use mint_flow.Telegram.Flow.Buttons.{
  on_draft_action, on_category, on_day, on_discard, forget_photo, on_edit, on_continue, start_over,
}
use mint_flow.Telegram.Parsing.{ParseError, TypedAmount}
use mint_flow.Telegram.Flow.Silent.{
  Leaves, books, pure-Leaves, domain-Leaves, conversation-Leaves, gets-Leaves, if-Leaves,
  bind-Leaves, lock-Leaves, save-Leaves, find-Leaves, update-Leaves, create-Leaves, receipt-Leaves,
}

pub ruleset silent = (
  pure-Leaves, domain-Leaves, conversation-Leaves, gets-Leaves, if-Leaves, bind-Leaves, lock-Leaves,
  save-Leaves, find-Leaves, update-Leaves, create-Leaves, receipt-Leaves,
)

module _ (user_id : ℕ) (now : Datetime) (c : TelegramConversation) where
  pub active_or_finish-Leaves : (o : Option CaptureDraft) → Leaves books (active_or_finish o now c)
  active_or_finish-Leaves none = search silent depth 9
  active_or_finish-Leaves (some draft) = search silent depth 9

  pub active_of-Leaves : (o : Option ℕ) → Leaves books (active_of o user_id now c)
  active_of-Leaves none = search silent
  active_of-Leaves (some draft_id) = search (silent, active_or_finish-Leaves)

  pub active-Leaves : Leaves books (active_draft user_id now c)
  unfolding active_draft
  active-Leaves = active_of-Leaves c.active_draft_id

  pub cancel-Leaves : (draft : CaptureDraft) → Leaves books (cancel_draft user_id now c draft)
  unfolding cancel_draft
  cancel-Leaves draft = search silent depth 9

  pub review-Leaves :
      (draft : CaptureDraft) (edits : Bool) → Leaves books (show_review now c draft edits)
  unfolding show_review
  review-Leaves draft edits = search silent depth 9

  pub default-Leaves :
      (draft : CaptureDraft) (o : Option Bool) → Leaves books (with_default o now c draft)
  default-Leaves draft none = search silent
  default-Leaves draft (some b) = search silent

  pub forget-Leaves : Leaves books (forget_photo now c)
  unfolding forget_photo
  forget-Leaves = search silent depth 9

pub advance-Leaves :
    (user_id : ℕ) (now : Datetime) (c : TelegramConversation) (draft : CaptureDraft)
    (next : AwaitingInput) (o : Option Bool)
    → Leaves books (advance user_id now c draft next o)
unfolding advance
advance-Leaves user_id now c draft next o = search (silent, default-Leaves, review-Leaves) depth 12

module _ (user_id : ℕ) (now : Datetime) (c : TelegramConversation) (draft : CaptureDraft) where
  pub money-Leaves :
      (r : Result ParseError Money) (b : Bool) {refusal : Flow Outgoing}
      → Leaves books refusal
      → Leaves books (set_money r user_id now c draft b refusal)
  unfolding set_money
  money-Leaves (err e) b h = h
  money-Leaves (ok money) b h = search (silent, advance-Leaves)

  pub typed-Leaves :
      (t : TypedAmount) (o : Option CurrencyCode) → Leaves books (on_typed t o user_id now c draft)
  unfolding on_typed
  typed-Leaves t none = search silent
  typed-Leaves t (some currency) = search (silent, money-Leaves)

  pub in_currency-Leaves :
      (o : Option Money) (currency : CurrencyCode)
      → Leaves books (in_currency o currency user_id now c draft)
  unfolding in_currency
  in_currency-Leaves none currency = search silent
  in_currency-Leaves (some amount) currency = search (silent, money-Leaves) depth 9

  pub currency-Leaves :
      (r : Result ParseError CurrencyCode) → Leaves books (on_parsed_currency r user_id now c draft)
  unfolding on_parsed_currency
  currency-Leaves (err e) = search silent
  currency-Leaves (ok currency) = in_currency-Leaves draft.amount currency

  pub merchant-Leaves :
      (r : Result ValueError MerchantName) → Leaves books (on_parsed_merchant r user_id now c draft)
  unfolding on_parsed_merchant
  merchant-Leaves (err e) = search silent
  merchant-Leaves (ok merchant) = search (silent, advance-Leaves)

pub amount-Leaves :
    (by : User) (now : Datetime) (c : TelegramConversation) (draft : CaptureDraft)
    (r : Result ParseError TypedAmount)
    → Leaves books (on_parsed_amount r by now c draft)
unfolding on_parsed_amount
amount-Leaves by now c draft (err e) = search silent
amount-Leaves by now c draft (ok t) = typed-Leaves by.id now c draft t _

module _ ⦃z : Zones⦄ (by : User) (now : Datetime) (c : TelegramConversation) where
  pub set_date-Leaves :
      (draft : CaptureDraft) (t : TransactionDate) → Leaves books (set_date by now c draft t)
  unfolding set_date
  set_date-Leaves draft t = search (silent, advance-Leaves) depth 9

  pub date-Leaves :
      (draft : CaptureDraft) (r : Result ParseError TransactionDate)
      → Leaves books (on_parsed_date r by now c draft)
  unfolding on_parsed_date
  date-Leaves draft (err e) = search silent
  date-Leaves draft (ok t) = set_date-Leaves draft t

  module _ (drawn : Drawn) where
    pub manual-Leaves : Leaves books (create_manual_draft by drawn now c)
    unfolding create_manual_draft
    manual-Leaves = search silent depth 14

    pub receipt_draft-Leaves :
        (file_id : Text) → Leaves books (create_receipt_draft by drawn now c file_id)
    unfolding create_receipt_draft
    receipt_draft-Leaves file_id = search silent depth 16

    pub over-Leaves : (o : Option Text) → Leaves books (start_over o by drawn now c)
    unfolding start_over
    over-Leaves none = manual-Leaves
    over-Leaves (some file_id) = receipt_draft-Leaves file_id
