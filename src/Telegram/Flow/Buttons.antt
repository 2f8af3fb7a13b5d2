-- ===== src/Telegram/Flow/Buttons.antt =====
-- The buttons of a card, `_on_draft_action` of src/mintflow/telegram/capture_flow.py.
use mint_flow.Prelude.{
  ℕ, Bool, true, false, Option, none, some, is_some, List, [], ◌∷◌, ◌&&◌, find, if◌then◌else◌,
}
use mint_flow.Prelude.Datetime.{Datetime, astimezone_utc}
use mint_flow.Prelude.Text.{Text, Unicode, text_eq}
use mint_flow.Calendar.{minus_days}
use mint_flow.Authentication.Store
use mint_flow.Authentication.Store.{TelegramConversation, AwaitingInput}
use mint_flow.Domain.Category.{Category}
use mint_flow.Domain.Draft.{CaptureDraft, user, is_awaiting, is_collecting, is_ready}
use mint_flow.Domain.Draft.Edit.{set_category_key}
use mint_flow.Domain.Draft.Lifecycle
use mint_flow.Domain.User.{User}
use mint_flow.Domain.User.Preferences.{Zones}
use mint_flow.Domain.Values.{make_transaction_date}
use mint_flow.Telegram.Conversation.{with_pending_receipt, waiting_for, finished}
use mint_flow.Telegram.Flow.{
  Bot, Drawn, Flow, ◌>>=◌, ◌>>◌, pure, of_domain, of_conversation, gets, save_conversation,
  update_draft,
}
use mint_flow.Telegram.Flow.Cards
use mint_flow.Telegram.Flow.Cards.{
  Message, Outgoing, reply, edit_message, callback_answer, DraftAction, CallbackData, Command,
  review_reply, prompt_for, no_active_draft, receipt_still_reading, use_category_buttons,
  draft_in_progress, already_saved, draft_not_active, draft_conflict, receipt_conflict,
}
use mint_flow.Telegram.Flow.Steps.{
  is_merchant, is_category, cancel_draft, show_review, advance, create_manual_draft,
  create_receipt_draft, confirm_draft,
}
use mint_flow.Telegram.Flow.Fields.{set_date}

abbrev is_date : AwaitingInput → Bool
is_date Store.date = true
is_date _ = false

-- forgets a photo that waits, if there is one
unfoldable pub forget_photo : Datetime → TelegramConversation → Flow TelegramConversation
forget_photo now c =
    if is_some c.pending_receipt_file_id
    then (of_conversation (with_pending_receipt none (astimezone_utc now) c) >>= λ c'.
        save_conversation c' >>= λ _. pure c')
    else pure c

-- `list_active` has the key
unfoldable pub is_listed : Text → Bot → Bool
unfolding text_eq
is_listed key b =
    is_some (find (λ (c : Category). c.is_active && text_eq c.key key) b.db.categories)

-- "edit:…"
abbrev pub on_edit :
    Option AwaitingInput → Datetime → TelegramConversation → CaptureDraft → Flow (List Outgoing)
on_edit none now c draft = pure []
on_edit (some awaiting) now c draft = do
  waiting ← of_conversation (waiting_for awaiting (astimezone_utc now) c)
  save_conversation waiting
  pure (prompt_for waiting draft ∷ [])

-- the button that continues a receipt without its recognition
abbrev on_manual : ℕ → Datetime → TelegramConversation → CaptureDraft → Flow (List Outgoing)
on_manual user_id now c draft =
    if is_awaiting draft.state
    then (of_domain (Lifecycle.continue_manually draft user_id now) >>= λ continued.
        update_draft continued >>= λ _.
        of_conversation (waiting_for Store.amount (astimezone_utc now) c) >>= λ waiting.
        save_conversation waiting >>= λ _. pure (prompt_for waiting continued ∷ []))
    else pure (prompt_for c draft ∷ [])

unfoldable pub on_continue : Datetime → TelegramConversation → CaptureDraft → Flow (List Outgoing)
unfolding forget_photo
on_continue now c draft = do c' ← forget_photo now c; pure (prompt_for c' draft ∷ [])

abbrev pub one : Flow Outgoing → Flow (List Outgoing)
one step = step >>= λ sent. pure (sent ∷ [])

module _ ⦃u : Unicode⦄ where
  abbrev mark_collected : CaptureDraft → ℕ → Datetime → Flow CaptureDraft
  mark_collected draft user_id now =
      if is_collecting draft.state
      then of_domain (Lifecycle.mark_ready_for_review draft user_id now)
      else pure draft

  -- "cat:…"
  unfoldable pub on_category :
      Text → ℕ → Datetime → TelegramConversation → CaptureDraft → Flow (List Outgoing)
  unfolding show_review text_eq
  on_category key user_id now c draft = do
    listed ← gets (is_listed key)
    (if listed
        then (of_domain (set_category_key draft user_id key now user) >>= λ changed.
            mark_collected changed user_id now >>= λ marked. one (show_review now c marked true))
        else pure (reply use_category_buttons ∷ []))

module _ ⦃z : Zones⦄ where
  -- "date:today" and "date:yesterday"
  unfoldable pub on_day :
      Option ℕ → User → Datetime → TelegramConversation → CaptureDraft → Flow (List Outgoing)
  unfolding set_date minus_days
  on_day none by now c draft = pure []
  on_day (some offset) by now c draft = do
    let today = z.local_date by.timezone.value (astimezone_utc now)
    picked ← of_domain (make_transaction_date (minus_days today offset))
    one (set_date by now c draft picked)

  unfoldable pub start_over :
      Option Text → User → Drawn → Datetime → TelegramConversation → Flow Outgoing
  unfolding create_manual_draft create_receipt_draft
  start_over none by drawn now c = create_manual_draft by drawn now c
  start_over (some file_id) by drawn now c = create_receipt_draft by drawn now c file_id

  -- "discard"
  unfoldable pub on_discard :
      User → Drawn → Datetime → TelegramConversation → CaptureDraft → Flow (List Outgoing)
  unfolding create_manual_draft create_receipt_draft cancel_draft
  on_discard by drawn now c draft = do
    cancelled ← cancel_draft by.id now c draft
    fresh ← of_conversation (finished (astimezone_utc now) c)
    one (start_over c.pending_receipt_file_id by drawn now fresh)

module _ ⦃u : Unicode⦄ ⦃z : Zones⦄ where
  -- `_on_draft_action`
  unfoldable pub on_draft_action :
      DraftAction
      → User
      → Drawn
      → Datetime
      → TelegramConversation
      → CaptureDraft
      → Flow (List Outgoing)
  unfolding advance on_category on_day on_discard confirm_draft cancel_draft forget_photo
  on_draft_action Cards.skip by drawn now c draft =
      if is_merchant c.awaiting
      then one (advance by.id now c draft Store.category none)
      else pure []
  on_draft_action (Cards.category key) by drawn now c draft =
      if is_category c.awaiting then on_category key by.id now c draft else pure []
  on_draft_action (Cards.day_before_today offset) by drawn now c draft =
      if is_date c.awaiting then on_day offset by now c draft else pure []
  on_draft_action (Cards.edit field) by drawn now c draft =
      if is_ready draft.state then on_edit field now c draft else pure []
  on_draft_action Cards.confirm by drawn now c draft =
      if is_ready draft.state then one (confirm_draft by.id drawn now c draft) else pure []
  on_draft_action Cards.cancel by drawn now c draft = do
    told ← cancel_draft by.id now c draft
    pure (edit_message told ∷ [])
  on_draft_action Cards.manual by drawn now c draft = on_manual by.id now c draft
  on_draft_action Cards.continue by drawn now c draft = on_continue now c draft
  on_draft_action Cards.discard by drawn now c draft = on_discard by drawn now c draft
  on_draft_action Cards.other by drawn now c draft = pure []
