-- ===== src/Telegram/Flow/Unsaved/Entries.antt =====
-- Nothing is saved before the confirmation, the promise of src/mintflow/telegram/capture_flow.py: what
-- its entry points leave as it was.
use mint_flow.Prelude.{ℕ, Option, none, some, refl, ◌≢◌}
use mint_flow.Prelude.Datetime.{Datetime}
use mint_flow.Prelude.Text.{Text, Unicode}
use mint_flow.Authentication.Store
use mint_flow.Authentication.Store.{TelegramConversation, AwaitingInput}
use mint_flow.Domain.Draft.{CaptureDraft}
use mint_flow.Domain.User.{User}
use mint_flow.Domain.User.Preferences.{Zones}
use mint_flow.Telegram.Flow.{Drawn}
use mint_flow.Telegram.Flow.Cards
use mint_flow.Telegram.Flow.Cards.{Outgoing, Message, DraftAction, CallbackData, Command}
use mint_flow.Telegram.Flow.Fields.{on_amount, on_currency, on_merchant, on_date}
use mint_flow.Telegram.Flow.Updates.{
  on_awaited, text_with, on_text, start_with, start_capture, media_with, on_media, cancel_with,
  on_command, button_with, on_callback,
}
use mint_flow.Telegram.Flow.Buttons.{
  on_draft_action, on_category, on_day, on_discard, on_edit, on_continue,
}
use mint_flow.Telegram.Flow.Silent.{Leaves, books}
use mint_flow.Telegram.Flow.Unsaved.{
  silent, active-Leaves, cancel-Leaves, review-Leaves, forget-Leaves, advance-Leaves,
  currency-Leaves, merchant-Leaves, amount-Leaves, set_date-Leaves, date-Leaves, manual-Leaves,
  receipt_draft-Leaves, over-Leaves,
}

module _ ⦃u : Unicode⦄ ⦃z : Zones⦄ (by : User) (now : Datetime) where
  awaited-Leaves :
      (c : TelegramConversation) (draft : CaptureDraft) (text : Text) (w : AwaitingInput)
      → Leaves books (on_awaited w by now c draft text)
  unfolding on_awaited on_amount on_currency on_merchant on_date
  awaited-Leaves c draft text Store.amount = search (silent, amount-Leaves)
  awaited-Leaves c draft text Store.currency = search (silent, currency-Leaves)
  awaited-Leaves c draft text Store.merchant = search (silent, merchant-Leaves)
  awaited-Leaves c draft text Store.date = search (silent, date-Leaves)
  awaited-Leaves c draft text Store.category = search silent
  awaited-Leaves c draft text Store.nothing = search silent

  text-Leaves :
      (c : TelegramConversation) (text : Text) (o : Option CaptureDraft)
      → Leaves books (text_with o by now c text)
  unfolding text_with
  text-Leaves c text none = search silent
  text-Leaves c text (some draft) = search (silent, awaited-Leaves)

  on_text-Leaves : (text : Text) → Leaves books (on_text by now text)
  unfolding on_text
  on_text-Leaves text = search (silent, active-Leaves, text-Leaves)

module _ ⦃u : Unicode⦄ ⦃z : Zones⦄ (by : User) (drawn : Drawn) (now : Datetime)
    (c : TelegramConversation) (draft : CaptureDraft) where
  category-Leaves : (key : Text) → Leaves books (on_category key by.id now c draft)
  unfolding on_category
  category-Leaves key = search (silent, review-Leaves) depth 12

  day-Leaves : (o : Option ℕ) → Leaves books (on_day o by now c draft)
  unfolding on_day
  day-Leaves none = search silent
  day-Leaves (some offset) = search (silent, set_date-Leaves)

  edit-Leaves : (o : Option AwaitingInput) → Leaves books (on_edit o now c draft)
  edit-Leaves none = search silent
  edit-Leaves (some w) = search silent

  discard-Leaves : Leaves books (on_discard by drawn now c draft)
  unfolding on_discard
  discard-Leaves = search (silent, cancel-Leaves, over-Leaves) depth 9

  on_draft_action-Leaves :
      (action : DraftAction)
      → action ≢ Cards.confirm
      → Leaves books (on_draft_action action by drawn now c draft)
  unfolding on_draft_action on_continue
  on_draft_action-Leaves Cards.skip h = search (silent, advance-Leaves)
  on_draft_action-Leaves (Cards.category key) h = search (silent, category-Leaves)
  on_draft_action-Leaves (Cards.day_before_today o) h = search (silent, day-Leaves)
  on_draft_action-Leaves (Cards.edit field) h = search (silent, edit-Leaves)
  on_draft_action-Leaves Cards.confirm h = elim (h refl) [ ]
  on_draft_action-Leaves Cards.cancel h = search (silent, cancel-Leaves)
  on_draft_action-Leaves Cards.manual h = search silent depth 12
  on_draft_action-Leaves Cards.continue h = search (silent, forget-Leaves)
  on_draft_action-Leaves Cards.discard h = discard-Leaves
  on_draft_action-Leaves Cards.other h = search silent

module _ ⦃z : Zones⦄ (by : User) (drawn : Drawn) (now : Datetime) where
  start-Leaves :
      (c : TelegramConversation) (o : Option CaptureDraft)
      → Leaves books (start_with o by drawn now c)
  unfolding start_with
  start-Leaves c none = manual-Leaves by now c drawn
  start-Leaves c (some draft) = search (silent, forget-Leaves)

  start_capture-Leaves : Leaves books (start_capture by drawn now)
  unfolding start_capture
  start_capture-Leaves = search (silent, active-Leaves, start-Leaves)

  media-Leaves :
      (c : TelegramConversation) (file_id : Text) (o : Option CaptureDraft)
      → Leaves books (media_with o by drawn now c file_id)
  unfolding media_with
  media-Leaves c file_id none = receipt_draft-Leaves by now c drawn file_id
  media-Leaves c file_id (some draft) = search silent depth 9

  on_media-Leaves : (file_id : Text) → Leaves books (on_media by drawn now file_id)
  unfolding on_media
  on_media-Leaves file_id = search (silent, active-Leaves, media-Leaves)

  cancel_with-Leaves :
      (c : TelegramConversation) (o : Option CaptureDraft)
      → Leaves books (cancel_with o by.id now c)
  unfolding cancel_with
  cancel_with-Leaves c none = search silent
  cancel_with-Leaves c (some draft) = search (silent, cancel-Leaves)

  on_command-Leaves : (command : Command) → Leaves books (on_command by drawn now command)
  unfolding on_command
  on_command-Leaves Cards.add_command = search (silent, start_capture-Leaves)
  on_command-Leaves Cards.cancel_command =
      search (silent, active-Leaves, cancel_with-Leaves) depth 9
  on_command-Leaves Cards.foreign_command = search silent

module _ ⦃u : Unicode⦄ ⦃z : Zones⦄ (by : User) (drawn : Drawn) (now : Datetime) where
  button-Leaves :
      (c : TelegramConversation) (draft_id : ℕ) (action : DraftAction) (o : Option CaptureDraft)
      → action ≢ Cards.confirm
      → Leaves books (button_with o draft_id action by drawn now c)
  unfolding button_with
  button-Leaves c draft_id action none h = search silent
  button-Leaves c draft_id action (some draft) h = search (silent, on_draft_action-Leaves) depth 9

  on_callback-Leaves :
      (pressed : CallbackData)
      → ((draft_id : ℕ) → pressed ≢ Cards.draft_action draft_id Cards.confirm)
      → Leaves books (on_callback by drawn now pressed)
  unfolding on_callback
  on_callback-Leaves Cards.add h = search (silent, start_capture-Leaves)
  on_callback-Leaves Cards.foreign h = search silent
  on_callback-Leaves (Cards.draft_action draft_id action) h =
      let other : action ≢ Cards.confirm = λ e. h draft_id (rw e refl) in
      search (silent, active-Leaves, button-Leaves, other) depth 9

  -- Only the button that confirms a draft saves anything: whatever the user types, sends or presses
  -- else, an update that returns leaves the expenses and their change records as they were.
  pub update-Leaves :
      (command : Command) (text file_id : Text) (pressed : CallbackData)
      → ((draft_id : ℕ) → pressed ≢ Cards.draft_action draft_id Cards.confirm)
      → Leaves books (on_command by drawn now command)
        × Leaves books (on_text by now text)
        × Leaves books (on_media by drawn now file_id)
        × Leaves books (on_callback by drawn now pressed)
  update-Leaves command text file_id pressed h = (
    on_command-Leaves by drawn now command,
    on_text-Leaves by now text,
    on_media-Leaves by drawn now file_id,
    on_callback-Leaves pressed h,
  )
