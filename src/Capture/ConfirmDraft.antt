-- ===== src/Capture/ConfirmDraft.antt =====
-- src/mintflow/application/capture/confirm_draft.py: a draft becomes exactly one expense. The clock
-- is the argument `now`, and the id that `Expense.create` draws is `fresh`.
pub mod Laws
pub mod Once
use mint_flow.Prelude.{ℕ, Bool, true, false, Option, none, some, or_else, if◌then◌else◌}
use mint_flow.Prelude.Datetime.{Datetime}
use mint_flow.Prelude.Text.{Unicode}
use mint_flow.Capture.Dates.{is_within_future_tolerance}
use mint_flow.Capture.Database.{
  Tx, ◌>>=◌, ◌>>◌, pure, raise, lift, or_raise, gets, get_draft, get_expense, get_user,
  create_expense, update_draft,
}
use mint_flow.Capture.Errors.{
  access_denied, not_confirmable, missing_field, future_date, no_expense_id, no_linked_expense,
  expense_deleted,
}
use mint_flow.Domain.Category.{uncategorized_key}
use mint_flow.Domain.Draft.{CaptureDraft, is_confirmed}
use mint_flow.Domain.Draft.Lifecycle.{is_confirmable, confirm}
use mint_flow.Domain.Expense
use mint_flow.Domain.Expense.{Expense, NewExpense}
use mint_flow.Domain.Money.{Money}
use mint_flow.Domain.User.Preferences.{Zones}
use mint_flow.Domain.Values.{TransactionDate}

-- `_existing_expense_for`
abbrev existing_by_id : Option ℕ → ℕ → Tx Expense
existing_by_id none caller_id = raise no_expense_id
existing_by_id (some expense_id) caller_id = do
  found ← gets (get_expense expense_id caller_id)
  existing ← or_raise found no_linked_expense
  if Expense.is_active existing then pure existing else raise expense_deleted

-- the values that the draft hands to `Expense.create`
abbrev pub new_expense : CaptureDraft → Money → TransactionDate → NewExpense
new_expense draft amount transaction_date = record {
  owner_id = draft.owner_id;
  money = amount;
  transaction_date = transaction_date;
  category_key = or_else draft.category_key uncategorized_key;
  capture_draft_id = draft.id;
  merchant = draft.merchant;
  note = draft.note;
  source = draft.source;
  receipt_id = draft.receipt_id;
}

module _ ⦃u : Unicode⦄ ⦃z : Zones⦄ where
  -- `execute` from the point where amount and date are at hand
  unfoldable pub confirm_with :
      CaptureDraft → ℕ → ℕ → Datetime → Money → TransactionDate → Tx Expense
  confirm_with draft caller_id fresh now amount transaction_date = do
    found ← gets (get_user caller_id)
    user ← or_raise found access_denied
    within ← lift (is_within_future_tolerance transaction_date now user.timezone)
    if within then pure tt else raise future_date
    expense ← lift (Expense.create fresh (new_expense draft amount transaction_date) now)
    create_expense expense
    confirmed_draft ← lift (confirm draft caller_id expense.id now)
    update_draft confirmed_draft
    pure expense

  abbrev with_fields :
      CaptureDraft → ℕ → ℕ → Datetime → Option Money → Option TransactionDate → Tx Expense
  with_fields draft caller_id fresh now (some amount) (some transaction_date) =
      confirm_with draft caller_id fresh now amount transaction_date
  with_fields draft caller_id fresh now _ _ = raise missing_field

  unfoldable pub confirm_found : CaptureDraft → ℕ → ℕ → Datetime → Tx Expense
  confirm_found draft caller_id fresh now =
      if is_confirmed draft.state
      then existing_by_id draft.expense_id caller_id
      else if is_confirmable draft
      then with_fields draft caller_id fresh now draft.amount draft.transaction_date
      else raise not_confirmable

  -- `ConfirmCaptureDraft.execute`
  unfoldable pub execute : ℕ → ℕ → ℕ → Datetime → Tx Expense
  execute draft_id caller_id fresh now = do
    found ← gets (get_draft draft_id caller_id)
    draft ← or_raise found access_denied
    confirm_found draft caller_id fresh now
