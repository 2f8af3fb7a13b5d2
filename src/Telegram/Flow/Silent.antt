-- ===== src/Telegram/Flow/Silent.antt =====
-- Steps of the flow that leave a part of the state as it was.
use mint_flow.Prelude.{
  ℕ, Bool, true, false, Option, none, some, List, ◌≡◌, refl, ◌∙◌, if◌then◌else◌,
}
use mint_flow.Prelude.Datetime.{Datetime}
use mint_flow.Prelude.Result.{Result, ok, err}
use mint_flow.Prelude.Text.{Text}
use mint_flow.Authentication.Store.{TelegramConversation}
use mint_flow.Capture.Changes.{ExpenseChangeRecord}
use mint_flow.Capture.Database.{Db}
use mint_flow.Capture.Database
use mint_flow.Domain.Draft.{CaptureDraft}
use mint_flow.Domain.Errors.{ValueError}
use mint_flow.Domain.Expense.{Expense}
use mint_flow.Domain.Receipt.{Receipt}
use mint_flow.Telegram.Conversation.{ConversationError}
use mint_flow.Telegram.Flow.{
  Bot, QueuedReceipt, Flow, FlowError, ◌>>=◌, pure, of_domain, of_conversation, gets, lock_user,
  save_conversation, find_draft, update_draft, create_draft, create_receipt, insert_draft,
  insert_receipt, locked,
}

-- Where the step returns, the part of the tables is as it was.
pub record Leaves {A X : Type 0} (part : Db → X) (m : Flow A) : Type 0 where
  pub keeps : (b : Bot) (a : A) (b' : Bot) → m b ≡ ok (a, b') → part b'.db ≡ part b.db

module _ {X : Type 0} (part : Db → X) {A : Type 0} where
  pub pure-Leaves : (a : A) → Leaves part (pure a)
  pure-Leaves a = record { keeps = λ b a' b' h. cc }

  pub domain-Leaves : (r : Result ValueError A) → Leaves part (of_domain r)
  domain-Leaves (ok a) = record { keeps = λ b a' b' h. cc }
  domain-Leaves (err e) = record { keeps = λ b a' b' h. cc }

  pub conversation-Leaves : (r : Result ConversationError A) → Leaves part (of_conversation r)
  conversation-Leaves (ok a) = record { keeps = λ b a' b' h. cc }
  conversation-Leaves (err e) = record { keeps = λ b a' b' h. cc }

  pub gets-Leaves : (f : Bot → A) → Leaves part (gets f)
  gets-Leaves f = record { keeps = λ b a' b' h. cc }

  pub if-Leaves :
      (t : Bool) {m n : Flow A} → Leaves part m → Leaves part n → Leaves part (if t then m else n)
  if-Leaves true h k = h
  if-Leaves false h k = k

  pub bind-Leaves :
      {B : Type 0} {m : Flow A} {rest : A → Flow B}
      → Leaves part m
      → ((a : A) → Leaves part (rest a))
      → Leaves part (m >>= rest)
  unfolding ◌>>=◌
  bind-Leaves {B = B} {m = m} {rest = rest} h k = record {
    keeps = λ b a b' e. go b a b' (m b) refl e;
  }
    where
      go :
          (b : Bot) (a : B) (b' : Bot) (r : Result FlowError (A × Bot))
          → m b ≡ r
          → (elim r [ err x ↦ err x | ok (c, b1) ↦ rest c b1 ]) ≡ ok (a, b')
          → part b'.db ≡ part b.db
      go b a b' (err x) e' e = cc
      go b a b' (ok (c, b1)) e' e = (k c).keeps b1 a b' e ∙ h.keeps b c b1 e'

-- what is kept of the expenses
abbrev pub books : Db → List Expense × List ExpenseChangeRecord
books db = (db.expenses, db.change_records)

abbrev pub drafts : Db → List CaptureDraft
drafts db = db.drafts

-- The conversations lie outside of the tables.
module _ {X : Type 0} (part : Db → X) where
  located :
      (r : Result ConversationError (TelegramConversation × List TelegramConversation))
      → Leaves part (locked r)
  located (err x) = record { keeps = λ b a b' e. cc }
  located (ok (c, rows)) = record { keeps = λ b a b' e. cc }

  pub lock-Leaves : (user_id : ℕ) (now : Datetime) → Leaves part (lock_user user_id now)
  unfolding lock_user
  lock-Leaves user_id now = record { keeps = λ b a b' e. (located _).keeps b a b' e }

  pub save-Leaves : (c : TelegramConversation) → Leaves part (save_conversation c)
  unfolding save_conversation
  save-Leaves c = record { keeps = λ b a b' e. cc }

  pub find-Leaves : (draft_id owner_id : ℕ) → Leaves part (find_draft draft_id owner_id)
  unfolding find_draft
  find-Leaves draft_id owner_id = gets-Leaves part _

pub update-Leaves : (draft : CaptureDraft) → Leaves books (update_draft draft)
unfolding update_draft Database.update_draft
update-Leaves draft = record { keeps = λ b a b' e. cc }

inserted : (o : Option CaptureDraft) (draft : CaptureDraft) → Leaves books (insert_draft o draft)
inserted none draft = record { keeps = λ b a b' e. cc }
inserted (some row) draft = record { keeps = λ b a b' e. cc }

pub create-Leaves : (draft : CaptureDraft) → Leaves books (create_draft draft)
unfolding create_draft
create-Leaves draft = record { keeps = λ b a b' e. (inserted _ draft).keeps b a b' e }

queued : (o : Option QueuedReceipt) (q : QueuedReceipt) → Leaves books (insert_receipt o q)
queued none q = record { keeps = λ b a b' e. cc }
queued (some row) q = record { keeps = λ b a b' e. cc }

pub receipt-Leaves : (r : Receipt) (file_id : Text) → Leaves books (create_receipt r file_id)
unfolding create_receipt
receipt-Leaves r file_id = record { keeps = λ b a b' e. (queued _ _).keeps b a b' e }
