-- ===== src/Telegram/Flow/Cards.antt =====
-- The messages and the buttons of src/mintflow/telegram/capture_flow.py.
use mint_flow.Prelude.{ℕ, Bool, true, false, Option}
use mint_flow.Prelude.Text.{Text}
use mint_flow.Authentication.Store
use mint_flow.Authentication.Store.{TelegramConversation, AwaitingInput}
use mint_flow.Domain.Draft.{CaptureDraft, is_awaiting}
use mint_flow.Domain.Money.{Money}

pub data Message : Type 0 where
  no_active_draft receipt_still_reading use_category_buttons draft_in_progress : Message
  already_saved draft_not_active draft_conflict receipt_conflict receipt_received : Message
  ask_amount ask_amount_with_currency ask_currency ask_merchant ask_category ask_date : Message
  invalid_amount invalid_currency invalid_merchant invalid_date future_date_typed : Message
  confirm_failed draft_cancelled : Message
  -- the card shows the draft, and whether its currency is the user's default
  review_card : CaptureDraft → Bool → Message
  saved : Money → Message

pub data Outgoing : Type 0 where
  reply edit_message : Message → Outgoing
  callback_answer : Option Message → Outgoing

-- the action of a button that is bound to a draft, as its text is read where it is handled: a field
-- or a day that is no key of the tables there is `none`
pub data DraftAction : Type 0 where
  skip confirm cancel manual continue discard other : DraftAction
  category : Text → DraftAction
  day_before_today : Option ℕ → DraftAction
  edit : Option AwaitingInput → DraftAction

pub data CallbackData : Type 0 where
  add : CallbackData
  draft_action : ℕ → DraftAction → CallbackData
  foreign : CallbackData

pub data Command : Type 0 where
  add_command cancel_command foreign_command : Command

abbrev pub review_reply : TelegramConversation → CaptureDraft → Outgoing
review_reply c draft = reply (review_card draft c.currency_is_default)

abbrev asked : AwaitingInput → TelegramConversation → CaptureDraft → Outgoing
asked Store.amount c draft = reply ask_amount
asked Store.currency c draft = reply ask_currency
asked Store.merchant c draft = reply ask_merchant
asked Store.category c draft = reply ask_category
asked Store.date c draft = reply ask_date
asked Store.nothing c draft = review_reply c draft

-- `_prompt_for`
unfoldable pub prompt_for : TelegramConversation → CaptureDraft → Outgoing
prompt_for c draft = elim (is_awaiting draft.state) [
  | true ↦ reply receipt_still_reading
  | false ↦ asked c.awaiting c draft
]
