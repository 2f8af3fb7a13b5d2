-- ===== src/Tests/Users.antt =====
-- Two users, of whom one deletes the account.
use mint_flow.Prelude.{ℕ, Bool, ◌≡◌, refl, true, false, none, some, [], ◌∷◌, Option}
use mint_flow.Prelude.Datetime.{aware}
use mint_flow.Prelude.Int.{pos}
use mint_flow.Prelude.Result.{ok, ◌>>=◌}
use mint_flow.Prelude.Text.{Text, codes}
use mint_flow.Authentication.Store.{
  Store, EmailIdentity, TelegramConversation, merchant, login_succeeded, succeeded,
}
use mint_flow.Domain.Draft.{CaptureDraft, web_manual, confirmed}
use mint_flow.Domain.Expense.{Expense}
use mint_flow.Domain.Receipt.{Receipt, RecognitionResult, recognized}
use mint_flow.Domain.User
use mint_flow.Domain.User.{User}
use mint_flow.Telegram.Conversation.{checked, lock, save}
use mint_flow.Telegram.Conversation.Rows.{IsValid, lock-save}
use mint_flow.Telegram.Links.{new_challenge}
use mint_flow.Tests.Capture.{coffee, deletion}
use mint_flow.Users.Deletion.{confirm_and_delete, normalize_email, canonical_email}
use mint_flow.Users.Deletion.References.{Tables}
use mint_flow.Users.Deletion.Statements.{delete_account}
use mint_flow.Users.Deletion.Kept.{IsSeparate}
use mint_flow.Users.Deletion.Erased.{erased, delete_account-erases, delete_account-once}
use mint_flow.Users.Deletion.Unreferenced.{SameOwner}
use mint_flow.Users.Deletion.Outcome.{Outcome, deletion_at, confirm_and_delete_cases}

abbrev user_of : ℕ → User
user_of id = User.new_user id (aware 2000 (pos 0)) (record {
  timezone = record { value = codes "UTC" };
  default_currency = none;
  ui_language = record { value = codes "en" };
  locale = none;
})

abbrev identity_of : ℕ → Text → EmailIdentity
identity_of user_id email = record {
  user_id = user_id;
  canonical_email = email;
  display_email = email;
  verified_at = 2000;
  created_at = 2000;
}

abbrev draft_of : ℕ → ℕ → Option ℕ → Option ℕ → Option ℕ → CaptureDraft
draft_of id owner_id expense_id receipt_id recognition_result_id = record {
  id = id;
  owner_id = owner_id;
  source = web_manual;
  state = confirmed;
  revision = 1;
  amount = none;
  amount_source = none;
  transaction_date = none;
  transaction_date_source = none;
  merchant = none;
  merchant_source = none;
  category_key = none;
  category_key_source = none;
  note = none;
  expense_id = expense_id;
  created_at = 3000;
  modified_at = 3000;
  confirmed_at = none;
  receipt_id = receipt_id;
  recognition_result_id = recognition_result_id;
}

abbrev receipt_of : ℕ → ℕ → Receipt
receipt_of id owner_id = record {
  id = id;
  owner_id = owner_id;
  state = recognized;
  attempt_id = some 40;
  lease_expires_at = none;
  image_removed_at = none;
  created_at = 2500;
  modified_at = 2600;
}

abbrev result_of : ℕ → ℕ → ℕ → RecognitionResult
result_of id receipt_id owner_id = record {
  id = id;
  receipt_id = receipt_id;
  attempt_id = 40;
  owner_id = owner_id;
  merchant = none;
  transaction_date = none;
  total = none;
  created_at = 2600;
}

abbrev pub waits_of : ℕ → ℕ → TelegramConversation
waits_of user_id draft_id = record {
  user_id = user_id;
  active_draft_id = some draft_id;
  awaiting = merchant;
  currency_is_default = true;
  updated_at = 3500;
  pending_receipt_file_id = none;
}

abbrev tea : Expense
tea = record coffee { id = 8; owner_id = 4; capture_draft_id = 3; receipt_id = some 31 }

abbrev accounts : Store
accounts = record {
  users = user_of 2 ∷ user_of 4 ∷ [];
  identities = identity_of 2 (codes "ada@x.org") ∷ identity_of 4 (codes "bob@x.org") ∷ [];
  login_challenges = [];
  sessions = [];
  link_challenges = new_challenge 11 55 2 6 3000 ∷ [];
  connections = [];
  conversations = waits_of 2 1 ∷ waits_of 4 3 ∷ [];
  audit_records =
      record {
        occurred_at = 2000;
        event_type = login_succeeded;
        outcome = succeeded;
        user_id = some 2;
        subject_record_id = none;
      }
      ∷ [];
}

abbrev tables : Tables
tables = record {
  accounts = accounts;
  drafts =
      draft_of 1 2 (some 7) (some 30) (some 50) ∷ draft_of 3 4 (some 8) (some 31) (some 51) ∷ [];
  expenses = coffee ∷ tea ∷ [];
  change_records = deletion ∷ [];
  receipts = receipt_of 30 2 ∷ receipt_of 31 4 ∷ [];
  receipt_images = [];
  recognition_results = result_of 50 30 2 ∷ result_of 51 31 4 ∷ [];
  deleted_accounts = [];
}

-- the rows of 2 and of 4, of which each may refer to its own
two_rows :
    (a b : Bool)
    → ((a ≡ true → ◌≡◌ {A = ℕ} 2 2) × ((false ≡ true → ◌≡◌ {A = ℕ} 2 4) × Unit {0}))
      × (((false ≡ true → ◌≡◌ {A = ℕ} 4 2) × ((b ≡ true → ◌≡◌ {A = ℕ} 4 4) × Unit {0})) × Unit {0})
two_rows a b = (((λ h. refl), ((λ h. cc), tt)), (((λ h. cc), ((λ h. refl), tt)), tt))

tables-IsSeparate : IsSeparate tables
unfolding SameOwner
tables-IsSeparate = record {
  expense_drafts = two_rows true true;
  draft_expenses = two_rows true true;
  draft_receipts = two_rows true true;
  expense_receipts = two_rows false true;
  draft_results = two_rows true true;
  result_receipts = two_rows true true;
  conversation_drafts = two_rows true true;
}

delete_account-erases_example :
    delete_account (deletion_at 2 9000) tables ≡ ok (true, erased (deletion_at 2 9000) tables)
delete_account-erases_example =
    delete_account-erases (deletion_at 2 9000) tables tables-IsSeparate refl

delete_account-once_example :
    (delete_account (deletion_at 2 9000) tables >>= λ r. delete_account (deletion_at 2 9500) r.1)
    ≡ ok (false, erased (deletion_at 2 9000) tables)
delete_account-once_example =
    delete_account-once (deletion_at 2 9000) (deletion_at 2 9500) tables tables-IsSeparate refl refl

confirm_and_delete_cases_example :
    Outcome
      (confirm_and_delete some 2 (codes " ada@x.org") 9000 tables)
      (normalize_email some (codes " ada@x.org"))
      (canonical_email 2 tables)
      (erased (deletion_at 2 9000) tables)
confirm_and_delete_cases_example =
    confirm_and_delete_cases some 2 (codes " ada@x.org") 9000 tables tables-IsSeparate refl

lock-save_example :
    lock 2 9000 (save (waits_of 2 9) accounts.conversations)
    ≡ ok (waits_of 2 9, save (waits_of 2 9) accounts.conversations)
unfolding IsValid checked
lock-save_example = lock-save (waits_of 2 9) accounts.conversations 9000 refl
