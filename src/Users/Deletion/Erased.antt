-- ===== src/Users/Deletion/Erased.antt =====
-- What the deletion of an account leaves: src/mintflow/infrastructure/persistence/account_deletion.py.
use mint_flow.Prelude.{ℕ, true, false, none, [], ◌∷◌, filter, ◌≡◌, refl, sym, ◌==◌, not}
use mint_flow.Prelude.Result.{ok, ◌>>=◌}
use mint_flow.Prelude.Text.{text_eq}
use mint_flow.Users.Deletion.References.{
  Tables, any, draft_of_expense, receipt_of_expense, expense_of_draft, receipt_of_draft,
  result_of_draft, receipt_of_result, receipt_of_image, draft_of_conversation,
}
use mint_flow.Users.Deletion.Statements.{
  AccountDeletion, owned, others, conversation_user, draft_owner, expense_owner, receipt_owner,
  result_owner, challenge_user, connection_user, session_user, identity_user, user_key,
  clear_result, delete_owned_rows, delete_expenses_and_drafts, delete_receipts, delete_user,
  delete_account, delete_locked, anonymous, tombstones, delete_change_records, delete_conversations,
  delete_results, delete_account_rows,
}
use mint_flow.Users.Deletion.Unreferenced.{
  map-same, All-all, none_left, unreferenced, spared, uncleared, stays,
}
use mint_flow.Users.Deletion.Kept.{
  IsSeparate, tables_without, filter-none, records_left, no_actor, records_spared,
  challenges_spared, clear_twice,
}

-- the tables without the user, with the tombstone and the anonymous event
unfoldable pub erased : AccountDeletion → Tables → Tables
unfolding text_eq
erased deletion t =
    let rest = tables_without deletion.user_id t in
    record rest {
      deleted_accounts = tombstones deletion.user_id deletion.deleted_at t.deleted_accounts;
      accounts = record rest.accounts {
        audit_records = anonymous deletion.audit_record ∷ rest.accounts.audit_records;
      };
    }

module _ (user_id : ℕ) (t : Tables) (separate : IsSeparate t) where
  abbrev without_expenses : Tables
  without_expenses = record t {
    accounts = record t.accounts {
      conversations = others conversation_user user_id t.accounts.conversations;
    };
    expenses = others expense_owner user_id t.expenses;
    drafts = others draft_owner user_id t.drafts;
    change_records = records_left user_id t;
  }

  abbrev without_receipts : Tables
  without_receipts = record without_expenses {
    receipts = others receipt_owner user_id t.receipts;
    receipt_images =
        filter (λ i. not (any (receipt_of_image i) (owned receipt_owner user_id t.receipts)))
          t.receipt_images;
    recognition_results = others result_owner user_id t.recognition_results;
  }

  expenses_step :
      delete_expenses_and_drafts user_id
        (delete_change_records user_id (delete_conversations user_id t))
      ≡ ok without_expenses
  unfolding delete_expenses_and_drafts
  expenses_step =
      rw
        (
          unreferenced draft_of_expense expense_owner draft_owner user_id t.expenses t.drafts
              separate.expense_drafts,
          unreferenced expense_of_draft draft_owner expense_owner user_id t.drafts t.expenses
              separate.draft_expenses,
          unreferenced draft_of_conversation conversation_user draft_owner user_id
              t.accounts.conversations t.drafts separate.conversation_drafts,
          records_spared user_id t,
        )
        refl

  no_more_results :
      filter
        (λ q. any (receipt_of_result q) (owned receipt_owner user_id t.receipts))
        (others result_owner user_id t.recognition_results)
      ≡ []
  no_more_results = filter-none _ _ (
      stays receipt_of_result result_owner receipt_owner user_id t.recognition_results t.receipts
        separate.result_receipts)

  receipts_step :
      delete_receipts user_id (delete_results user_id without_expenses) ≡ ok without_receipts
  unfolding delete_receipts
  receipts_step =
      rw
        (
          uncleared result_of_draft draft_owner result_owner user_id
              (λ d. record d { recognition_result_id = none }) t.drafts t.recognition_results
              separate.draft_results,
          unreferenced receipt_of_draft draft_owner receipt_owner user_id t.drafts t.receipts
              separate.draft_receipts,
          unreferenced receipt_of_expense expense_owner receipt_owner user_id t.expenses t.receipts
              separate.expense_receipts,
          spared receipt_of_result result_owner receipt_owner user_id t.recognition_results
              t.receipts separate.result_receipts,
          no_more_results,
          map-same (clear_result []) (others draft_owner user_id t.drafts) (
              All-all {P = λ d. clear_result [] d ≡ d} (λ d. refl)
                (others draft_owner user_id t.drafts)),
        )
        refl

  user_step :
      delete_user user_id (record without_receipts {
        accounts = delete_account_rows user_id without_receipts.accounts;
      })
      ≡ ok (tables_without user_id t)
  unfolding delete_user text_eq
  user_step =
      rw
        (
          challenges_spared user_id t.accounts.link_challenges t.accounts.sessions,
          none_left identity_user user_id t.accounts.identities,
          none_left session_user user_id t.accounts.sessions,
          none_left draft_owner user_id t.drafts,
          none_left expense_owner user_id t.expenses,
          no_actor user_id t,
          none_left challenge_user user_id t.accounts.link_challenges,
          none_left connection_user user_id t.accounts.connections,
          none_left conversation_user user_id t.accounts.conversations,
          none_left receipt_owner user_id t.receipts,
          none_left result_owner user_id t.recognition_results,
          clear_twice user_id t.accounts.audit_records,
        )
        refl

  pub rows_without : delete_owned_rows user_id t ≡ ok (tables_without user_id t)
  unfolding delete_owned_rows text_eq
  rows_without = rw (expenses_step, receipts_step, user_step) refl

-- For an account that exists, in tables whose rows refer to rows of their own user only, no statement
-- raises, and what is left are the tables without the rows of the user: no cascade and no cleared
-- reference reaches a row of somebody else, the user is cleared from the audit, and a tombstone and
-- one anonymous event are written.
pub delete_account-erases :
    (deletion : AccountDeletion) (t : Tables)
    → IsSeparate t
    → any (λ u. user_key u == deletion.user_id) t.accounts.users ≡ true
    → delete_account deletion t ≡ ok (true, erased deletion t)
unfolding delete_account delete_locked erased
delete_account-erases deletion t separate here =
    rw (here, rows_without deletion.user_id t separate) refl

-- A second deletion of the same account finds nothing to delete and changes nothing, whenever it
-- comes and whatever it would record, where the tables' rows refer to rows of their own user only.
pub delete_account-once :
    (deletion again : AccountDeletion) (t : Tables)
    → IsSeparate t
    → any (λ u. user_key u == deletion.user_id) t.accounts.users ≡ true
    → deletion.user_id ≡ again.user_id
    → (delete_account deletion t >>= λ r. delete_account again r.1) ≡ ok (false, erased deletion t)
unfolding delete_account erased
delete_account-once deletion again t separate here same =
    rw (delete_account-erases deletion t separate here, sym same)
      (rw (none_left user_key deletion.user_id t.accounts.users) refl)
