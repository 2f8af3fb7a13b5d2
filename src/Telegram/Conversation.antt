-- ===== src/Telegram/Conversation.antt =====
-- What the bot is waiting for from one user: src/mintflow/application/telegram/conversation.py and
-- the repository src/mintflow/infrastructure/persistence/telegram_conversations.py, whose statements
-- work on the rows of one table. Rows are written in front, and a row lock is no state of its own.
pub mod Rows
use mint_flow.Prelude.{
  ℕ, Bool, true, false, Option, none, some, is_none, is_some, List, [], ◌∷◌, map, find, not, ◌&&◌,
  ◌==◌, if◌then◌else◌,
}
use mint_flow.Prelude.Datetime.{Instant}
use mint_flow.Prelude.Result.{Result, ok, err, ◌>>=◌, ◌>>◌, raise_if}
use mint_flow.Prelude.Text.{Text}
use mint_flow.Authentication.Store.{TelegramConversation, AwaitingInput, nothing}

pub data ConversationError : Type 0 where
  waits_without_draft receipt_without_draft no_row : ConversationError

abbrev pub is_nothing : AwaitingInput → Bool
is_nothing nothing = true
is_nothing _ = false

-- `__post_init__`
unfoldable pub checked : TelegramConversation → Result ConversationError TelegramConversation
checked c = do
  raise_if (is_none c.active_draft_id && not (is_nothing c.awaiting)) waits_without_draft
  raise_if (is_none c.active_draft_id && is_some c.pending_receipt_file_id) receipt_without_draft
  ok c

abbrev pub idle_row : ℕ → Instant → TelegramConversation
idle_row user_id now = record {
  user_id = user_id;
  active_draft_id = none;
  awaiting = nothing;
  currency_is_default = false;
  updated_at = now;
  pending_receipt_file_id = none;
}

unfoldable pub idle : ℕ → Instant → Result ConversationError TelegramConversation
unfolding checked
idle user_id now = checked (idle_row user_id now)

unfoldable pub with_pending_receipt :
    Option Text → Instant → TelegramConversation → Result ConversationError TelegramConversation
unfolding checked
with_pending_receipt file_id now c =
    checked (record c { pending_receipt_file_id = file_id; updated_at = now })

unfoldable pub waiting_for :
    AwaitingInput → Instant → TelegramConversation → Result ConversationError TelegramConversation
unfolding checked
waiting_for awaiting now c = checked (record c { awaiting = awaiting; updated_at = now })

unfoldable pub with_draft :
    ℕ
    → AwaitingInput
    → Bool
    → Instant
    → TelegramConversation
    → Result ConversationError TelegramConversation
unfolding checked
with_draft draft_id awaiting currency_is_default now c = checked (record c {
  active_draft_id = some draft_id;
  awaiting = awaiting;
  currency_is_default = currency_is_default;
  pending_receipt_file_id = none;
  updated_at = now;
})

unfoldable pub finished :
    Instant → TelegramConversation → Result ConversationError TelegramConversation
unfolding idle
finished now c = idle c.user_id now

-- where user_id = user_id
abbrev pub is_of : ℕ → TelegramConversation → Bool
is_of user_id c = c.user_id == user_id

-- `on_conflict_do_nothing`
abbrev pub insert_missing :
    Option TelegramConversation
    → TelegramConversation
    → List TelegramConversation
    → List TelegramConversation
insert_missing (some row) new rows = rows
insert_missing none new rows = new ∷ rows

-- `.one()`, of which the caller gets the conversation
abbrev pub one_of :
    Option TelegramConversation
    → List TelegramConversation
    → Result ConversationError (TelegramConversation × List TelegramConversation)
one_of none rows = err no_row
one_of (some row) rows = checked row >>= λ c. ok (c, rows)

unfoldable pub lock :
    ℕ
    → Instant
    → List TelegramConversation
    → Result ConversationError (TelegramConversation × List TelegramConversation)
unfolding checked
lock user_id now rows =
    let present = insert_missing (find (is_of user_id) rows) (idle_row user_id now) rows in
    one_of (find (is_of user_id) present) present

abbrev pub replace_row : TelegramConversation → TelegramConversation → TelegramConversation
replace_row new row = if row.user_id == new.user_id then new else row

-- `on_conflict_do_update`, which sets every column but the key
abbrev pub upsert :
    Option TelegramConversation
    → TelegramConversation
    → List TelegramConversation
    → List TelegramConversation
upsert (some row) new rows = map (replace_row new) rows
upsert none new rows = new ∷ rows

unfoldable pub save : TelegramConversation → List TelegramConversation → List TelegramConversation
save c rows = upsert (find (is_of c.user_id) rows) c rows
