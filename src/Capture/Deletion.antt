-- ===== src/Capture/Deletion.antt =====
-- src/mintflow/application/capture/expense_deletion.py: `_DeletionStateChange` and its two
-- subclasses, as the cases of `Change`.
pub mod Laws
use mint_flow.Prelude.{ℕ, Bool, true, false, [], not, if◌then◌else◌}
use mint_flow.Prelude.Datetime.{Datetime}
use mint_flow.Prelude.Result.{Result}
use mint_flow.Capture.Changes.{ExpenseChangeType, deleted, restored, make_record}
use mint_flow.Capture.Database.{
  Tx, ◌>>=◌, ◌>>◌, pure, lift, or_raise, gets, get_expense, update_expense, append_record,
}
use mint_flow.Capture.Errors.{expense_not_found}
use mint_flow.Domain.Errors.{ValueError}
use mint_flow.Domain.Expense
use mint_flow.Domain.Expense.{Expense}

-- `DeleteExpense` and `RestoreExpense`
pub data Change : Type 0 where
  delete_expense restore_expense : Change

abbrev pub change_type : Change → ExpenseChangeType
change_type delete_expense = deleted
change_type restore_expense = restored

-- `_already_in_effect`
abbrev pub already_in_effect : Change → Expense → Bool
already_in_effect delete_expense e = not (Expense.is_active e)
already_in_effect restore_expense e = Expense.is_active e

-- `_transition`
abbrev pub transition : Change → Expense → Datetime → Result ValueError Expense
transition delete_expense e now = Expense.delete e now
transition restore_expense e now = Expense.restore e now

unfoldable pub change_state : Change → Expense → ℕ → ℕ → Datetime → Tx Expense
change_state c expense caller_id fresh now = do
  changed ← lift (transition c expense now)
  change ← lift (make_record fresh expense.id caller_id now (change_type c) [])
  append_record change
  update_expense changed
  pure changed

abbrev pub branch : Change → ℕ → ℕ → Datetime → Expense → Tx Expense
branch c caller_id fresh now expense =
    if already_in_effect c expense then pure expense else change_state c expense caller_id fresh now

-- `execute`
unfoldable pub execute : Change → ℕ → ℕ → ℕ → Datetime → Tx Expense
execute c expense_id caller_id fresh now = do
  found ← gets (get_expense expense_id caller_id)
  expense ← or_raise found expense_not_found
  branch c caller_id fresh now expense
