-- ===== src/Users/Deletion/Kept.antt =====
-- What stays when the rows of one user go: the tables of src/mintflow/infrastructure/persistence/models.py
-- without them.
use mint_flow.Prelude.{
  ℕ, Bool, true, false, none, List, [], ◌∷◌, map, filter, ◌≡◌, refl, ap, ◌||◌, ◌==◌, not, All,
  All-filter, All-imp, arith, filter-all,
}
use mint_flow.Authentication.Store.{
  Store, AuthenticationAuditRecord, TelegramLinkChallenge, WebSession,
}
use mint_flow.Capture.Changes.{ExpenseChangeRecord}
use mint_flow.Domain.Expense.{Expense}
use mint_flow.Users.Deletion.References.{
  Tables, any, draft_of_expense, receipt_of_expense, expense_of_draft, receipt_of_draft,
  result_of_draft, receipt_of_result, receipt_of_image, expense_of_record, draft_of_conversation,
  session_of_challenge,
}
use mint_flow.Users.Deletion.Statements.{
  owned, others, conversation_user, draft_owner, expense_owner, receipt_owner, result_owner,
  record_actor, challenge_user, connection_user, session_user, identity_user, user_key, record_goes,
  is_sent_to, without_user, is_user_id,
}
use mint_flow.Users.Deletion.Unreferenced.{SameOwner, any-none, All-all, spared}

-- Every row refers to rows of its own user only.
pub record IsSeparate (t : Tables) : Type 0 where
  pub expense_drafts : SameOwner draft_of_expense expense_owner draft_owner t.expenses t.drafts
  pub draft_expenses : SameOwner expense_of_draft draft_owner expense_owner t.drafts t.expenses
  pub draft_receipts : SameOwner receipt_of_draft draft_owner receipt_owner t.drafts t.receipts
  pub expense_receipts :
      SameOwner receipt_of_expense expense_owner receipt_owner t.expenses t.receipts
  pub draft_results :
      SameOwner result_of_draft draft_owner result_owner t.drafts t.recognition_results
  pub result_receipts :
      SameOwner receipt_of_result result_owner receipt_owner t.recognition_results t.receipts
  pub conversation_drafts :
      SameOwner draft_of_conversation conversation_user draft_owner t.accounts.conversations
        t.drafts

-- the accounts without the user's
abbrev pub accounts_without : ℕ → Store → Store
accounts_without user_id s = record {
  users = others user_key user_id s.users;
  identities = others identity_user user_id s.identities;
  login_challenges =
      filter (λ c. not (is_sent_to (owned identity_user user_id s.identities) c))
        s.login_challenges;
  sessions = others session_user user_id s.sessions;
  link_challenges = others challenge_user user_id s.link_challenges;
  connections = others connection_user user_id s.connections;
  conversations = others conversation_user user_id s.conversations;
  audit_records = map (without_user user_id) s.audit_records;
}

-- the tables without the user's rows, every other row as it was
abbrev pub tables_without : ℕ → Tables → Tables
tables_without user_id t = record {
  accounts = accounts_without user_id t.accounts;
  drafts = others draft_owner user_id t.drafts;
  expenses = others expense_owner user_id t.expenses;
  change_records = filter (λ c. not (record_goes user_id t.expenses c)) t.change_records;
  receipts = others receipt_owner user_id t.receipts;
  receipt_images =
      filter (λ i. not (any (receipt_of_image i) (owned receipt_owner user_id t.receipts)))
        t.receipt_images;
  recognition_results = others result_owner user_id t.recognition_results;
  deleted_accounts = t.deleted_accounts;
}

pub filter-none :
    {A : Type 0} (p : A → Bool) (rows : List A) → All (λ a. p a ≡ false) rows → filter p rows ≡ []
filter-none p [] h = refl
filter-none p (a ∷ rows) (h, rest) = rw h (filter-none p rows rest)

goes_by_expense :
    (user_id : ℕ) (expenses : List Expense) (c : ExpenseChangeRecord)
    → not (record_goes user_id expenses c) ≡ true
    → ((record_actor c == user_id) ≡ false)
      × (any (expense_of_record c) (owned expense_owner user_id expenses) ≡ false)
goes_by_expense user_id expenses c h = go (c.actor_user_id == user_id) _ refl refl h
  where
    go :
        (a b : Bool)
        → (record_actor c == user_id) ≡ a
        → any (expense_of_record c) (owned expense_owner user_id expenses) ≡ b
        → not (a || b) ≡ true
        → ((record_actor c == user_id) ≡ false)
          × (any (expense_of_record c) (owned expense_owner user_id expenses) ≡ false)
    go true b e e' k = cc
    go false true e e' k = cc
    go false false e e' k = (e, e')

module _ (user_id : ℕ) (t : Tables) where
  abbrev pub records_left : List ExpenseChangeRecord
  records_left = filter (λ c. not (record_goes user_id t.expenses c)) t.change_records

  left :
      All
        (λ c.
          ((record_actor c == user_id) ≡ false)
          × (any (expense_of_record c) (owned expense_owner user_id t.expenses) ≡ false))
        records_left
  left =
      All-imp (λ c h. goes_by_expense user_id t.expenses c h.1) _
        (All-filter _ (λ c. not (record_goes user_id t.expenses c)) t.change_records
          (All-all {P = λ c. Unit {0}} (λ c. tt) t.change_records))

  pub no_actor : any (λ c. record_actor c == user_id) records_left ≡ false
  no_actor = any-none _ _ (All-imp (λ c h. h.0) _ left)

  pub records_spared :
      filter
        (λ c. not (any (expense_of_record c) (owned expense_owner user_id t.expenses)))
        records_left
      ≡ records_left
  records_spared = filter-all _ _ (All-imp (λ c h. rw h.1 refl) _ left)

pub challenges_spared :
    (user_id : ℕ) (rows : List TelegramLinkChallenge) (sessions : List WebSession)
    → filter
        (λ c. not (any (session_of_challenge c) (owned session_user user_id sessions)))
        (others challenge_user user_id rows)
      ≡ others challenge_user user_id rows
unfolding SameOwner
challenges_spared user_id rows sessions =
    spared session_of_challenge challenge_user session_user user_id rows sessions
      (All-all (λ c. All-all (λ s. same c s) sessions) rows)
  where
    same :
        (c : TelegramLinkChallenge) (s : WebSession)
        → session_of_challenge c s ≡ true
        → challenge_user c ≡ session_user s
    same c s h = ground arith

pub clear_twice :
    (user_id : ℕ) (rows : List AuthenticationAuditRecord)
    → map (without_user user_id) (map (without_user user_id) rows) ≡ map (without_user user_id) rows
clear_twice user_id [] = refl
clear_twice user_id (r ∷ rows) = go (is_user_id r.user_id user_id) refl (clear_twice user_id rows)
  where
    go :
        (b : Bool)
        → is_user_id r.user_id user_id ≡ b
        → map (without_user user_id) (map (without_user user_id) rows)
          ≡ map (without_user user_id) rows
        → map (without_user user_id) (map (without_user user_id) (r ∷ rows))
          ≡ map (without_user user_id) (r ∷ rows)
    go true e k = rw e (ap (λ l. record r { user_id = none } ∷ l) k)
    go false e k = rw (e, e) (ap (λ l. r ∷ l) k)
