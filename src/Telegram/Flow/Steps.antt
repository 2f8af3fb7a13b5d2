-- ===== src/Telegram/Flow/Steps.antt =====
-- The steps of src/mintflow/telegram/capture_flow.py.
use mint_flow.Prelude.{ℕ, Bool, true, false, Option, none, some, is_some, ◌&&◌, if◌then◌else◌}
use mint_flow.Prelude.Datetime.{Datetime, astimezone_utc}
use mint_flow.Prelude.Result.{ok, err}
use mint_flow.Prelude.Text.{Text, Unicode}
use mint_flow.Authentication.Store
use mint_flow.Authentication.Store.{TelegramConversation, AwaitingInput}
use mint_flow.Capture.ConfirmDraft
use mint_flow.Capture.Errors.{
  CaptureError, access_denied, not_confirmable, missing_field, future_date, no_expense_id,
  no_linked_expense, expense_deleted,
}
use mint_flow.Domain.Draft.{CaptureDraft, telegram_manual, default, is_open, is_collecting}
use mint_flow.Domain.Draft.Edit.{set_transaction_date}
use mint_flow.Domain.Draft.Lifecycle
use mint_flow.Domain.Expense.{Expense}
use mint_flow.Domain.Receipt.{receive}
use mint_flow.Domain.User.{User}
use mint_flow.Domain.User.Preferences.{Zones}
use mint_flow.Domain.Values.{make_transaction_date}
use mint_flow.Telegram.Conversation.{waiting_for, with_draft, finished}
use mint_flow.Telegram.Flow.{
  Drawn, Flow, ◌>>=◌, ◌>>◌, pure, of_domain, of_conversation, capture, save_conversation,
  find_draft, update_draft, create_draft, create_receipt,
}
use mint_flow.Telegram.Flow.Cards.{
  Message, Outgoing, reply, edit_message, draft_cancelled, review_reply, review_card, prompt_for,
  receipt_received, ask_amount, confirm_failed, draft_not_active, saved,
}

abbrev pub is_merchant : AwaitingInput → Bool
is_merchant Store.merchant = true
is_merchant _ = false

abbrev pub is_category : AwaitingInput → Bool
is_category Store.category = true
is_category _ = false

-- the draft where the conversation may still point at it, else the conversation is finished
abbrev pub active_or_finish :
    Option CaptureDraft → Datetime → TelegramConversation → Flow (Option CaptureDraft)
active_or_finish none now c = do
  idle ← of_conversation (finished (astimezone_utc now) c)
  save_conversation idle
  pure none
active_or_finish (some draft) now c =
    if is_open draft.state
    then pure (some draft)
    else (of_conversation (finished (astimezone_utc now) c) >>= λ idle.
        save_conversation idle >>= λ _. pure none)

abbrev pub active_of : Option ℕ → ℕ → Datetime → TelegramConversation → Flow (Option CaptureDraft)
active_of none user_id now c = pure none
active_of (some draft_id) user_id now c = do
  found ← find_draft draft_id user_id
  active_or_finish found now c

-- `_active_draft`
unfoldable pub active_draft : ℕ → Datetime → TelegramConversation → Flow (Option CaptureDraft)
active_draft user_id now c = active_of c.active_draft_id user_id now c

-- `_cancel`
unfoldable pub cancel_draft : ℕ → Datetime → TelegramConversation → CaptureDraft → Flow Message
cancel_draft user_id now c draft = do
  cancelled ← of_domain (Lifecycle.cancel draft user_id now)
  update_draft cancelled
  idle ← of_conversation (finished (astimezone_utc now) c)
  save_conversation idle
  pure draft_cancelled

abbrev shown : Bool → TelegramConversation → CaptureDraft → Outgoing
shown true c draft = edit_message (review_card draft c.currency_is_default)
shown false c draft = review_reply c draft

-- `_show_review`; the flag says whether there is a message to edit
unfoldable pub show_review : Datetime → TelegramConversation → CaptureDraft → Bool → Flow Outgoing
show_review now c draft edits = do
  reviewed ← of_conversation (waiting_for Store.nothing (astimezone_utc now) c)
  update_draft draft
  save_conversation reviewed
  pure (shown edits reviewed draft)

abbrev pub with_default :
    Option Bool → Datetime → TelegramConversation → CaptureDraft → Flow TelegramConversation
with_default none now c draft = pure c
with_default (some is_default) now c draft =
    of_conversation (with_draft draft.id c.awaiting is_default (astimezone_utc now) c)

-- what a receipt draft that is collecting asks next: only what recognition could not fill
abbrev next_field : AwaitingInput → CaptureDraft → AwaitingInput
next_field next draft =
    if is_collecting draft.state
      && (is_some draft.receipt_id && (is_merchant next && is_some draft.merchant))
    then Store.category
    else next

abbrev mark_filled : AwaitingInput → CaptureDraft → ℕ → Datetime → Flow CaptureDraft
mark_filled next draft user_id now =
    if is_collecting draft.state
      && (is_some draft.receipt_id && (is_category next && is_some draft.category_key))
    then of_domain (Lifecycle.mark_ready_for_review draft user_id now)
    else pure draft

abbrev ask_next : Datetime → TelegramConversation → CaptureDraft → AwaitingInput → Flow Outgoing
ask_next now c draft next = do
  update_draft draft
  waiting ← of_conversation (waiting_for next (astimezone_utc now) c)
  save_conversation waiting
  pure (prompt_for waiting draft)

-- `_advance`
unfoldable pub advance :
    ℕ → Datetime → TelegramConversation → CaptureDraft → AwaitingInput → Option Bool → Flow Outgoing
unfolding show_review
advance user_id now c draft next is_default = do
  c1 ← with_default is_default now c draft
  filled ← mark_filled (next_field next draft) draft user_id now
  (if is_collecting filled.state
      then ask_next now c1 filled (next_field next draft)
      else show_review now c1 filled false)

module _ ⦃z : Zones⦄ where
  -- the draft of today, as `_create_draft` and `_create_receipt_draft` make and store it
  abbrev store_draft :
      CaptureDraft → User → Datetime → TelegramConversation → AwaitingInput → Flow (Unit {0})
  store_draft started u now c awaiting = do
    today ← of_domain (make_transaction_date (z.local_date u.timezone.value (astimezone_utc now)))
    draft ← of_domain (set_transaction_date started u.id today now default)
    create_draft draft
    waiting ← of_conversation (with_draft draft.id awaiting false (astimezone_utc now) c)
    save_conversation waiting

  -- `_create_draft`
  unfoldable pub create_manual_draft :
      User → Drawn → Datetime → TelegramConversation → Flow Outgoing
  create_manual_draft u drawn now c = do
    started ← of_domain (Lifecycle.start drawn.draft_id u.id telegram_manual now)
    store_draft started u now c Store.amount
    pure (reply ask_amount)

  -- `_create_receipt_draft`
  unfoldable pub create_receipt_draft :
      User → Drawn → Datetime → TelegramConversation → Text → Flow Outgoing
  create_receipt_draft u drawn now c file_id = do
    receipt ← of_domain (receive drawn.receipt_id u.id now)
    create_receipt receipt file_id
    started ← of_domain (Lifecycle.start_from_receipt drawn.draft_id u.id receipt.id now)
    store_draft started u now c Store.nothing
    pure (reply receipt_received)

-- the messages of `CaptureDraftNotConfirmable` and `CaptureDraftAccessDenied`
abbrev pub refusal_of : CaptureError → Option Message
refusal_of access_denied = some draft_not_active
refusal_of not_confirmable = some confirm_failed
refusal_of missing_field = some confirm_failed
refusal_of future_date = some confirm_failed
refusal_of no_expense_id = some confirm_failed
refusal_of no_linked_expense = some confirm_failed
refusal_of expense_deleted = some confirm_failed
refusal_of _ = none

abbrev refuse : Option Message → CaptureError → Flow Outgoing
refuse none e b = err (capture e)
refuse (some m) e b = ok (reply m, b)

abbrev after_confirm : TelegramConversation → Datetime → Expense → Flow Outgoing
after_confirm c now expense = do
  idle ← of_conversation (finished (astimezone_utc now) c)
  save_conversation idle
  pure (edit_message (saved expense.money))

module _ ⦃u : Unicode⦄ ⦃z : Zones⦄ where
  -- `_confirm_draft`; the use case raises before it writes
  unfoldable pub confirm_draft :
      ℕ → Drawn → Datetime → TelegramConversation → CaptureDraft → Flow Outgoing
  confirm_draft user_id drawn now c draft b =
      elim (ConfirmDraft.execute draft.id user_id drawn.expense_id now b.db) [
        | err e ↦ refuse (refusal_of e) e b
        | ok (expense, db) ↦ after_confirm c now expense (record b { db = db })
      ]
