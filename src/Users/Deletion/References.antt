-- ===== src/Users/Deletion/References.antt =====
-- The tables that an account's rows stand in, and the columns by which a row refers to another, as
-- src/mintflow/infrastructure/persistence/models.py declares them.
use mint_flow.Prelude.{ℕ, Bool, false, Option, none, some, List, [], ◌∷◌, ◌&&◌, ◌||◌, ◌==◌}
use mint_flow.Prelude.Datetime.{Instant}
use mint_flow.Prelude.Text.{Text}
use mint_flow.Authentication.Store.{Store, TelegramConversation, TelegramLinkChallenge, WebSession}
use mint_flow.Capture.Changes.{ExpenseChangeRecord}
use mint_flow.Domain.Draft.{CaptureDraft}
use mint_flow.Domain.Expense.{Expense}
use mint_flow.Domain.Receipt.{Receipt, RecognitionResult}

pub record ReceiptImage : Type 0 where
  pub receipt_id : ℕ
  pub media_type : Text
  pub content : List ℕ
  pub stored_at : Instant

pub record DeletedAccount : Type 0 where
  pub user_id : ℕ
  pub deleted_at : Instant

pub record Tables : Type 0 where
  pub accounts : Store
  pub drafts : List CaptureDraft
  pub expenses : List Expense
  pub change_records : List ExpenseChangeRecord
  pub receipts : List Receipt
  pub receipt_images : List ReceiptImage
  pub recognition_results : List RecognitionResult
  pub deleted_accounts : List DeletedAccount

abbrev pub any {ℓ} : {A : Type ℓ} → (A → Bool) → List A → Bool
any p [] = false
any p (x ∷ xs) = p x || any p xs

-- some row of the first table refers to a row of the second
abbrev pub any_refers : {A B : Type 0} → (A → B → Bool) → List A → List B → Bool
any_refers refers rows targets = any (λ a. any (refers a) targets) rows

abbrev is_id : Option ℕ → ℕ → Bool
is_id none id = false
is_id (some referred) id = referred == id

abbrev pub draft_of_expense : Expense → CaptureDraft → Bool
draft_of_expense e d = e.capture_draft_id == d.id

abbrev pub receipt_of_expense : Expense → Receipt → Bool
receipt_of_expense e r = is_id e.receipt_id r.id

abbrev pub expense_of_draft : CaptureDraft → Expense → Bool
expense_of_draft d e = is_id d.expense_id e.id

abbrev pub receipt_of_draft : CaptureDraft → Receipt → Bool
receipt_of_draft d r = is_id d.receipt_id r.id

abbrev pub result_of_draft : CaptureDraft → RecognitionResult → Bool
result_of_draft d q = is_id d.recognition_result_id q.id

abbrev pub receipt_of_result : RecognitionResult → Receipt → Bool
receipt_of_result q r = q.receipt_id == r.id

abbrev pub receipt_of_image : ReceiptImage → Receipt → Bool
receipt_of_image i r = i.receipt_id == r.id

abbrev pub expense_of_record : ExpenseChangeRecord → Expense → Bool
expense_of_record c e = c.expense_id == e.id

abbrev pub draft_of_conversation : TelegramConversation → CaptureDraft → Bool
draft_of_conversation c d = is_id c.active_draft_id d.id

-- the two columns of `fk_telegram_link_challenges_session_user`
abbrev pub session_of_challenge : TelegramLinkChallenge → WebSession → Bool
session_of_challenge c s = c.initiating_web_session_id == s.id && c.initiating_user_id == s.user_id
