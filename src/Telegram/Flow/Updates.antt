-- ===== src/Telegram/Flow/Updates.antt =====
-- The entry points of src/mintflow/telegram/capture_flow.py: a command, a text, a photo, a button.
use mint_flow.Prelude.{ℕ, Option, none, some, List, [], ◌∷◌, ◌==◌, if◌then◌else◌}
use mint_flow.Prelude.Datetime.{Datetime, astimezone_utc}
use mint_flow.Prelude.Text.{Text, Unicode}
use mint_flow.Authentication.Store
use mint_flow.Authentication.Store.{TelegramConversation, AwaitingInput}
use mint_flow.Domain.Draft.{CaptureDraft, is_awaiting, is_confirmed}
use mint_flow.Domain.User.{User}
use mint_flow.Domain.User.Preferences.{Zones}
use mint_flow.Telegram.Conversation.{with_pending_receipt}
use mint_flow.Telegram.Flow.{
  Drawn, Flow, ◌>>=◌, ◌>>◌, pure, of_conversation, lock_user, save_conversation, find_draft,
}
use mint_flow.Telegram.Flow.Cards
use mint_flow.Telegram.Flow.Cards.{
  Message, Outgoing, reply, edit_message, callback_answer, DraftAction, CallbackData, Command,
  review_reply, prompt_for, no_active_draft, receipt_still_reading, use_category_buttons,
  draft_in_progress, already_saved, draft_not_active, draft_conflict, receipt_conflict,
}
use mint_flow.Telegram.Flow.Steps.{
  active_draft, cancel_draft, create_manual_draft, create_receipt_draft,
}
use mint_flow.Telegram.Flow.Fields.{on_amount, on_currency, on_merchant, on_date}
use mint_flow.Telegram.Flow.Buttons.{forget_photo, on_draft_action, one}

module _ ⦃z : Zones⦄ where
  -- `_start`
  unfoldable pub start_with :
      Option CaptureDraft → User → Drawn → Datetime → TelegramConversation → Flow Outgoing
  unfolding create_manual_draft forget_photo
  start_with none by drawn now c = create_manual_draft by drawn now c
  start_with (some existing) by drawn now c = do
    c' ← forget_photo now c
    pure (reply draft_conflict)

  unfoldable pub start_capture : User → Drawn → Datetime → Flow Outgoing
  unfolding create_manual_draft forget_photo lock_user active_draft
  start_capture by drawn now = do
    c ← lock_user by.id now
    existing ← active_draft by.id now c
    start_with existing by drawn now c

  unfoldable pub media_with :
      Option CaptureDraft → User → Drawn → Datetime → TelegramConversation → Text → Flow Outgoing
  unfolding create_receipt_draft
  media_with none by drawn now c file_id = create_receipt_draft by drawn now c file_id
  media_with (some existing) by drawn now c file_id = do
    c' ← of_conversation (with_pending_receipt (some file_id) (astimezone_utc now) c)
    save_conversation c'
    pure (reply receipt_conflict)

  unfoldable pub on_media : User → Drawn → Datetime → Text → Flow Outgoing
  unfolding create_receipt_draft lock_user active_draft
  on_media by drawn now file_id = do
    c ← lock_user by.id now
    existing ← active_draft by.id now c
    media_with existing by drawn now c file_id

  unfoldable pub cancel_with :
      Option CaptureDraft → ℕ → Datetime → TelegramConversation → Flow (List Outgoing)
  unfolding cancel_draft
  cancel_with none user_id now c = pure (reply no_active_draft ∷ [])
  cancel_with (some draft) user_id now c = do
    told ← cancel_draft user_id now c draft
    pure (reply told ∷ [])

  -- `none` for a command of somebody else
  unfoldable pub on_command : User → Drawn → Datetime → Command → Flow (Option (List Outgoing))
  unfolding start_capture cancel_draft lock_user active_draft
  on_command by drawn now Cards.foreign_command = pure none
  on_command by drawn now Cards.add_command = do
    sent ← start_capture by drawn now
    pure (some (sent ∷ []))
  on_command by drawn now Cards.cancel_command = do
    c ← lock_user by.id now
    found ← active_draft by.id now c
    sent ← cancel_with found by.id now c
    pure (some sent)

module _ ⦃u : Unicode⦄ ⦃z : Zones⦄ where
  unfoldable pub on_awaited :
      AwaitingInput
      → User
      → Datetime
      → TelegramConversation
      → CaptureDraft
      → Text
      → Flow (List Outgoing)
  unfolding on_amount on_currency on_merchant on_date
  on_awaited Store.amount by now c draft text = one (on_amount by now c draft text)
  on_awaited Store.currency by now c draft text = one (on_currency by.id now c draft text)
  on_awaited Store.merchant by now c draft text = one (on_merchant by.id now c draft text)
  on_awaited Store.date by now c draft text = one (on_date by now c draft text)
  on_awaited Store.category by now c draft text = pure (reply use_category_buttons ∷ [])
  on_awaited Store.nothing by now c draft text =
      pure (reply draft_in_progress ∷ review_reply c draft ∷ [])

  unfoldable pub text_with :
      Option CaptureDraft → User → Datetime → TelegramConversation → Text → Flow (List Outgoing)
  unfolding on_amount on_currency on_merchant on_date
  text_with none by now c text = pure (reply no_active_draft ∷ [])
  text_with (some draft) by now c text =
      if is_awaiting draft.state
      then pure (reply receipt_still_reading ∷ [])
      else on_awaited c.awaiting by now c draft text

  unfoldable pub on_text : User → Datetime → Text → Flow (List Outgoing)
  unfolding on_amount on_currency on_merchant on_date lock_user active_draft
  on_text by now text = do
    c ← lock_user by.id now
    found ← active_draft by.id now c
    text_with found by now c text

  abbrev stale_answer : Option CaptureDraft → Message
  stale_answer none = draft_not_active
  stale_answer (some d) = if is_confirmed d.state then already_saved else draft_not_active

  abbrev stale_button : ℕ → ℕ → Flow (List Outgoing)
  stale_button draft_id user_id = do
    stale ← find_draft draft_id user_id
    pure (callback_answer (some (stale_answer stale)) ∷ [])

  unfoldable pub button_with :
      Option CaptureDraft
      → ℕ
      → DraftAction
      → User
      → Drawn
      → Datetime
      → TelegramConversation
      → Flow (List Outgoing)
  unfolding on_draft_action
  button_with none draft_id action by drawn now c = stale_button draft_id by.id
  button_with (some draft) draft_id action by drawn now c =
      if draft.id == draft_id
      then (on_draft_action action by drawn now c draft >>= λ replies.
          pure (callback_answer none ∷ replies))
      else stale_button draft_id by.id

  unfoldable pub on_callback :
      User → Drawn → Datetime → CallbackData → Flow (Option (List Outgoing))
  unfolding on_draft_action start_capture lock_user active_draft
  on_callback by drawn now Cards.foreign = pure none
  on_callback by drawn now Cards.add = do
    sent ← start_capture by drawn now
    pure (some (callback_answer none ∷ sent ∷ []))
  on_callback by drawn now (Cards.draft_action draft_id action) = do
    c ← lock_user by.id now
    found ← active_draft by.id now c
    sent ← button_with found draft_id action by drawn now c
    pure (some sent)
