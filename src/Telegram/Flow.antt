-- ===== src/Telegram/Flow.antt =====
-- src/mintflow/telegram/capture_flow.py: the capture of an expense in the chat. The state is what one
-- update's transaction works on. An update reads the clock once here, `now`, and the ids that it may
-- draw are `Drawn`. A message is named by its constant in src/mintflow/telegram/messages.py; chat and
-- message ids, texts and keyboards are left out, and so is the listing of recent expenses.
pub mod Cards
pub mod Steps
pub mod Fields
pub mod Buttons
pub mod Updates
pub mod Silent
pub mod Unsaved
pub mod Stale
use mint_flow.Prelude.{
  ℕ, Bool, true, false, Option, none, some, List, ◌∷◌, find, ◌==◌, if◌then◌else◌,
}
use mint_flow.Prelude.Datetime.{Datetime, astimezone_utc}
use mint_flow.Prelude.Result.{Result, ok, err}
use mint_flow.Prelude.Text.{Text}
use mint_flow.Authentication.Store.{TelegramConversation}
use mint_flow.Capture.Database.{Db, Tx}
use mint_flow.Capture.Database
use mint_flow.Capture.Errors.{CaptureError, integrity_error}
use mint_flow.Domain.Draft.{CaptureDraft}
use mint_flow.Domain.Errors.{ValueError}
use mint_flow.Domain.Receipt.{Receipt}
use mint_flow.Telegram.Conversation
use mint_flow.Telegram.Conversation.{ConversationError}

pub record QueuedReceipt : Type 0 where
  pub receipt : Receipt
  pub telegram_file_id : Text

pub record Bot : Type 0 where
  pub db : Db
  pub conversations : List TelegramConversation
  pub receipts : List QueuedReceipt

pub record Drawn : Type 0 where
  pub draft_id : ℕ
  pub receipt_id : ℕ
  pub expense_id : ℕ

pub data FlowError : Type 0 where
  domain : ValueError → FlowError
  capture : CaptureError → FlowError
  conversation : ConversationError → FlowError

-- An exception that leaves an update rolls its transaction back.
abbrev pub Flow : Type 0 → Type 0
Flow A = Bot → Result FlowError (A × Bot)

module _ {A B : Type 0} where
  infixl 5 ◌>>=◌
  unfoldable pub ◌>>=◌ : Flow A → (A → Flow B) → Flow B
  ◌>>=◌ m rest b = elim (m b) [ err e ↦ err e | ok (a, b') ↦ rest a b' ]

module _ {B : Type 0} where
  infixl 5 ◌>>◌
  abbrev pub ◌>>◌ : Flow (Unit {0}) → Flow B → Flow B
  first >> rest = first >>= λ _. rest

module _ {A : Type 0} where
  abbrev pub pure : A → Flow A
  pure a b = ok (a, b)

  abbrev pub of_domain : Result ValueError A → Flow A
  of_domain (ok a) b = ok (a, b)
  of_domain (err e) b = err (domain e)

  abbrev pub of_conversation : Result ConversationError A → Flow A
  of_conversation (ok a) b = ok (a, b)
  of_conversation (err e) b = err (conversation e)

abbrev pub gets : {A : Type 0} → (Bot → A) → Flow A
gets f b = ok (f b, b)

-- what the repositories and the use case of Capture do in the same transaction
abbrev pub on_db : {A : Type 0} → Tx A → Flow A
on_db m b = elim (m b.db) [ err e ↦ err (capture e) | ok (a, db) ↦ ok (a, record b { db = db }) ]

abbrev pub locked :
    Result ConversationError (TelegramConversation × List TelegramConversation)
    → Flow TelegramConversation
locked (err e) b = err (conversation e)
locked (ok (c, rows)) b = ok (c, record b { conversations = rows })

-- `_lock`
unfoldable pub lock_user : ℕ → Datetime → Flow TelegramConversation
unfolding Conversation.lock
lock_user user_id now b = locked (Conversation.lock user_id (astimezone_utc now) b.conversations) b

unfoldable pub save_conversation : TelegramConversation → Flow (Unit {0})
unfolding Conversation.save
save_conversation c b = ok (tt, record b { conversations = Conversation.save c b.conversations })

unfoldable pub find_draft : ℕ → ℕ → Flow (Option CaptureDraft)
unfolding Database.get_draft
find_draft draft_id owner_id = gets (λ b. Database.get_draft draft_id owner_id b.db)

unfoldable pub update_draft : CaptureDraft → Flow (Unit {0})
unfolding Database.update_draft
update_draft draft = on_db (Database.update_draft draft)

abbrev pub insert_draft : Option CaptureDraft → CaptureDraft → Flow (Unit {0})
insert_draft (some row) draft b = err (capture integrity_error)
insert_draft none draft b = ok (tt, record b { db = record b.db { drafts = draft ∷ b.db.drafts } })

unfoldable pub create_draft : CaptureDraft → Flow (Unit {0})
create_draft draft b =
    insert_draft (find (λ (row : CaptureDraft). row.id == draft.id) b.db.drafts) draft b

abbrev pub insert_receipt : Option QueuedReceipt → QueuedReceipt → Flow (Unit {0})
insert_receipt (some row) q b = err (capture integrity_error)
insert_receipt none q b = ok (tt, record b { receipts = q ∷ b.receipts })

unfoldable pub create_receipt : Receipt → Text → Flow (Unit {0})
create_receipt receipt file_id b =
    insert_receipt (find (λ (q : QueuedReceipt). q.receipt.id == receipt.id) b.receipts)
      (record { receipt = receipt; telegram_file_id = file_id }) b
