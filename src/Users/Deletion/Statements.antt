-- ===== src/Users/Deletion/Statements.antt =====
-- src/mintflow/infrastructure/persistence/account_deletion.py: one function per statement, in the
-- order of `_DELETE_OWNED_ROWS`. A statement does what the foreign keys of models.py say: a row that
-- goes takes the rows that refer to it along (CASCADE), clears the reference (SET NULL), or the
-- statement raises because a row still refers to it (RESTRICT).
use mint_flow.Prelude.{
  ℕ, Bool, true, false, Option, none, some, List, ◌∷◌, map, filter, find, ◌||◌, ◌==◌, not,
  if◌then◌else◌,
}
use mint_flow.Prelude.Datetime.{Instant}
use mint_flow.Prelude.Result.{Result, ok, ◌>>=◌, ◌>>◌, raise_if}
use mint_flow.Prelude.Text.{text_eq}
use mint_flow.Authentication.Store.{
  Store, EmailIdentity, LoginChallenge, WebSession, TelegramLinkChallenge, TelegramConnection,
  TelegramConversation, AuthenticationAuditRecord, add_audit,
}
use mint_flow.Capture.Changes.{ExpenseChangeRecord}
use mint_flow.Domain.Draft.{CaptureDraft}
use mint_flow.Domain.Expense.{Expense}
use mint_flow.Domain.Receipt.{Receipt, RecognitionResult}
use mint_flow.Domain.User.{User}
use mint_flow.Users.Deletion.References.{
  Tables, DeletedAccount, any, any_refers, draft_of_expense, receipt_of_expense, expense_of_draft,
  receipt_of_draft, result_of_draft, receipt_of_result, receipt_of_image, expense_of_record,
  draft_of_conversation, session_of_challenge,
}

pub record AccountDeletion : Type 0 where
  pub user_id : ℕ
  pub deleted_at : Instant
  pub audit_record : AuthenticationAuditRecord

pub data DeletionError : Type 0 where
  still_referenced not_confirmed : DeletionError

-- the rows that a user owns, and the others
abbrev pub owned : {A : Type 0} → (A → ℕ) → ℕ → List A → List A
owned owner user_id = filter (λ a. owner a == user_id)

abbrev pub others : {A : Type 0} → (A → ℕ) → ℕ → List A → List A
others owner user_id = filter (λ a. not (owner a == user_id))

abbrev pub conversation_user : TelegramConversation → ℕ
conversation_user c = c.user_id

abbrev pub draft_owner : CaptureDraft → ℕ
draft_owner d = d.owner_id

abbrev pub expense_owner : Expense → ℕ
expense_owner e = e.owner_id

abbrev pub receipt_owner : Receipt → ℕ
receipt_owner r = r.owner_id

abbrev pub result_owner : RecognitionResult → ℕ
result_owner q = q.owner_id

abbrev pub record_actor : ExpenseChangeRecord → ℕ
record_actor c = c.actor_user_id

abbrev pub challenge_user : TelegramLinkChallenge → ℕ
challenge_user c = c.initiating_user_id

abbrev pub connection_user : TelegramConnection → ℕ
connection_user k = k.user_id

abbrev pub session_user : WebSession → ℕ
session_user s = s.user_id

abbrev pub identity_user : EmailIdentity → ℕ
identity_user i = i.user_id

abbrev pub user_key : User → ℕ
user_key u = u.id

abbrev pub delete_conversations : ℕ → Tables → Tables
delete_conversations user_id t = record t {
  accounts = record t.accounts {
    conversations = others conversation_user user_id t.accounts.conversations;
  };
}

abbrev pub record_goes : ℕ → List Expense → ExpenseChangeRecord → Bool
record_goes user_id expenses c =
    c.actor_user_id == user_id || any (expense_of_record c) (owned expense_owner user_id expenses)

abbrev pub delete_change_records : ℕ → Tables → Tables
delete_change_records user_id t = record t {
  change_records = filter (λ c. not (record_goes user_id t.expenses c)) t.change_records;
}

-- one statement, whose references are checked at its end
unfoldable pub delete_expenses_and_drafts : ℕ → Tables → Result DeletionError Tables
delete_expenses_and_drafts user_id t = do
  let expenses_gone = owned expense_owner user_id t.expenses
  let drafts_gone = owned draft_owner user_id t.drafts
  let expenses = others expense_owner user_id t.expenses
  let drafts = others draft_owner user_id t.drafts
  raise_if (any_refers draft_of_expense expenses drafts_gone) still_referenced
  raise_if (any_refers expense_of_draft drafts expenses_gone) still_referenced
  raise_if (any_refers draft_of_conversation t.accounts.conversations drafts_gone) still_referenced
  ok (record t {
    expenses = expenses;
    drafts = drafts;
    change_records = filter (λ c. not (any (expense_of_record c) expenses_gone)) t.change_records;
  })

abbrev pub clear_result : List RecognitionResult → CaptureDraft → CaptureDraft
clear_result gone d =
    if any (result_of_draft d) gone then record d { recognition_result_id = none } else d

-- the results that fit go, and the drafts that refer to them are cleared
abbrev pub remove_results : (RecognitionResult → Bool) → Tables → Tables
remove_results goes t = record t {
  recognition_results = filter (λ q. not (goes q)) t.recognition_results;
  drafts = map (clear_result (filter goes t.recognition_results)) t.drafts;
}

abbrev pub delete_results : ℕ → Tables → Tables
delete_results user_id = remove_results (λ q. q.owner_id == user_id)

unfoldable pub delete_receipts : ℕ → Tables → Result DeletionError Tables
delete_receipts user_id t = do
  let gone = owned receipt_owner user_id t.receipts
  raise_if (any_refers receipt_of_draft t.drafts gone) still_referenced
  raise_if (any_refers receipt_of_expense t.expenses gone) still_referenced
  ok (
      remove_results (λ q. any (receipt_of_result q) gone)
        (record t {
          receipts = others receipt_owner user_id t.receipts;
          receipt_images = filter (λ i. not (any (receipt_of_image i) gone)) t.receipt_images;
        }))

abbrev pub delete_link_challenges : ℕ → Store → Store
delete_link_challenges user_id s = record s {
  link_challenges = others challenge_user user_id s.link_challenges;
}

abbrev pub delete_connections : ℕ → Store → Store
delete_connections user_id s = record s {
  connections = others connection_user user_id s.connections;
}

abbrev pub delete_sessions : ℕ → Store → Store
delete_sessions user_id s =
    let gone = owned session_user user_id s.sessions in
    record s {
      sessions = others session_user user_id s.sessions;
      link_challenges = filter (λ c. not (any (session_of_challenge c) gone)) s.link_challenges;
    }

abbrev pub is_sent_to : List EmailIdentity → LoginChallenge → Bool
is_sent_to identities c = any (λ i. text_eq i.canonical_email c.canonical_email) identities

abbrev pub delete_login_challenges : ℕ → Store → Store
delete_login_challenges user_id s = record s {
  login_challenges =
      filter (λ c. not (is_sent_to (owned identity_user user_id s.identities) c))
        s.login_challenges;
}

abbrev pub delete_identities : ℕ → Store → Store
delete_identities user_id s = record s { identities = others identity_user user_id s.identities }

abbrev pub is_user_id : Option ℕ → ℕ → Bool
is_user_id none user_id = false
is_user_id (some id) user_id = id == user_id

abbrev pub without_user : ℕ → AuthenticationAuditRecord → AuthenticationAuditRecord
without_user user_id r = if is_user_id r.user_id user_id then record r { user_id = none } else r

abbrev pub clear_audit : ℕ → Store → Store
clear_audit user_id s = record s { audit_records = map (without_user user_id) s.audit_records }

-- every table with a foreign key to users that restricts
abbrev pub refers_to_user : ℕ → Tables → Bool
refers_to_user user_id t =
    any (λ i. identity_user i == user_id) t.accounts.identities
    || (any (λ s. session_user s == user_id) t.accounts.sessions
        || (any (λ d. draft_owner d == user_id) t.drafts
            || (any (λ e. expense_owner e == user_id) t.expenses
                || (any (λ c. record_actor c == user_id) t.change_records
                    || (any (λ c. challenge_user c == user_id) t.accounts.link_challenges
                        || (any (λ k. connection_user k == user_id) t.accounts.connections
                            || (any (λ c. conversation_user c == user_id) t.accounts.conversations
                                || (any (λ r. receipt_owner r == user_id) t.receipts
                                    || any (λ q. result_owner q == user_id)
                                        t.recognition_results))))))))

unfoldable pub delete_user : ℕ → Tables → Result DeletionError Tables
delete_user user_id t = do
  raise_if (refers_to_user user_id t) still_referenced
  ok (record t {
    accounts =
        clear_audit user_id
          (record t.accounts { users = others user_key user_id t.accounts.users });
  })

abbrev pub delete_account_rows : ℕ → Store → Store
delete_account_rows user_id s = clear_audit user_id (
    delete_identities user_id (
      delete_login_challenges user_id
        (delete_sessions user_id (delete_connections user_id (delete_link_challenges user_id s)))))

-- the statements of `_DELETE_OWNED_ROWS`, one after the other
unfoldable pub delete_owned_rows : ℕ → Tables → Result DeletionError Tables
unfolding delete_expenses_and_drafts delete_receipts delete_user text_eq
delete_owned_rows user_id t = do
  t1 ←
      delete_expenses_and_drafts user_id
        (delete_change_records user_id (delete_conversations user_id t))
  t2 ← delete_receipts user_id (delete_results user_id t1)
  delete_user user_id (record t2 { accounts = delete_account_rows user_id t2.accounts })

abbrev set_deleted_at : ℕ → Instant → DeletedAccount → DeletedAccount
set_deleted_at user_id at row =
    if row.user_id == user_id then record row { deleted_at = at } else row

abbrev insert_deleted :
    Option DeletedAccount → ℕ → Instant → List DeletedAccount → List DeletedAccount
insert_deleted none user_id at rows = record { user_id = user_id; deleted_at = at } ∷ rows
insert_deleted (some row) user_id at rows = map (set_deleted_at user_id at) rows

abbrev pub tombstones : ℕ → Instant → List DeletedAccount → List DeletedAccount
tombstones user_id at rows =
    insert_deleted (find (λ (row : DeletedAccount). row.user_id == user_id) rows) user_id at rows

abbrev pub anonymous : AuthenticationAuditRecord → AuthenticationAuditRecord
anonymous r = record r { user_id = none; subject_record_id = none }

unfoldable pub delete_locked : AccountDeletion → Tables → Result DeletionError (Bool × Tables)
unfolding delete_owned_rows
delete_locked deletion t = do
  t' ← delete_owned_rows deletion.user_id t
  ok (
    true,
    record t' {
      deleted_accounts = tombstones deletion.user_id deletion.deleted_at t'.deleted_accounts;
      accounts = add_audit (anonymous deletion.audit_record) t'.accounts;
    },
  )

-- `_delete`; the lock on the user's row is no state of its own
unfoldable pub delete_account : AccountDeletion → Tables → Result DeletionError (Bool × Tables)
unfolding delete_locked
delete_account deletion t =
    if any (λ u. user_key u == deletion.user_id) t.accounts.users
    then delete_locked deletion t
    else ok (false, t)
