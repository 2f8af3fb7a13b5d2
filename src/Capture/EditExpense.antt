-- ===== src/Capture/EditExpense.antt =====
-- src/mintflow/application/capture/edit_expense.py: correcting a confirmed expense. The clock is the
-- argument `now`, and the id that the change record draws is `fresh`.
pub mod Laws
pub mod Applied
pub mod Written
pub mod Recorded
pub mod Edited
use mint_flow.Prelude.{ℕ, Bool, true, false, Option, none, some, List, [], ◌∷◌, not, if◌then◌else◌}
use mint_flow.Prelude.Datetime.{Datetime}
use mint_flow.Prelude.Result.{Result, ok, err}
use mint_flow.Prelude.Text.{Text, Unicode, text_eq}
use mint_flow.Calendar.{date_eq}
use mint_flow.Capture.Changes.{
  ExpenseField, ExpenseFieldChange, ExpenseChangeRecord, edited, all_fields, expense_field_value,
  value_eq, make_change, make_record,
}
use mint_flow.Capture.Database.{
  Tx, ◌>>=◌, ◌>>◌, pure, raise, lift, or_raise, gets, get_active_expense, get_user, get_category,
  update_expense, append_record,
}
use mint_flow.Capture.Dates.{is_within_future_tolerance}
use mint_flow.Capture.Errors.{CaptureError, expense_not_found, owner_not_found, edit_rejected}
use mint_flow.Domain.Category.{Category}
use mint_flow.Domain.Errors.{ValueError}
use mint_flow.Domain.Expense
use mint_flow.Domain.Expense.{Expense}
use mint_flow.Domain.Money.{Money}
use mint_flow.Domain.User.Preferences.{Zones}
use mint_flow.Domain.Values.{TransactionDate, MerchantName}

-- A field of the command that the caller did not supply, or supplied.
pub data Supplied (A : Type 0) : Type 0 where
  unchanged : Supplied A
  supplied : A → Supplied A

pub record ExpenseEdit : Type 0 where
  pub money : Supplied Money
  pub transaction_date : Supplied TransactionDate
  pub merchant : Supplied (Option MerchantName)
  pub category_key : Supplied Text
  pub note : Supplied (Option Text)

-- `except ValueError as error: raise ExpenseEditRejected`
abbrev rejecting : {A : Type 0} → Result ValueError A → Tx A
rejecting (ok a) = pure a
rejecting (err e) = raise edit_rejected

abbrev has_active : Option Category → Bool
has_active none = false
has_active (some c) = c.is_active

module _ ⦃u : Unicode⦄ ⦃z : Zones⦄ where
  -- `_require_acceptable_date`
  unfoldable pub require_acceptable_date : TransactionDate → ℕ → Datetime → Tx (Unit {0})
  require_acceptable_date transaction_date caller_id now = do
    found ← gets (get_user caller_id)
    user ← or_raise found owner_not_found
    within ← rejecting (is_within_future_tolerance transaction_date now user.timezone)
    if within then pure tt else raise edit_rejected

  -- `_require_active_category`
  unfoldable pub require_active_category : Text → Tx (Unit {0})
  require_active_category category_key = do
    found ← gets (get_category category_key)
    if has_active found then pure tt else raise edit_rejected

  abbrev apply_money : Supplied Money → Datetime → Expense → Tx Expense
  apply_money unchanged now e = pure e
  apply_money (supplied money) now e = rejecting (Expense.edit_money e money now)

  abbrev apply_date : Supplied TransactionDate → ℕ → Datetime → Expense → Tx Expense
  apply_date unchanged caller_id now e = pure e
  apply_date (supplied date) caller_id now e = do
    if date_eq date.value e.transaction_date.value
        then pure tt
        else require_acceptable_date date caller_id now
    rejecting (Expense.edit_transaction_date e date now)

  abbrev apply_merchant : Supplied (Option MerchantName) → Datetime → Expense → Tx Expense
  apply_merchant unchanged now e = pure e
  apply_merchant (supplied merchant) now e = rejecting (Expense.edit_merchant e merchant now)

  abbrev apply_category : Supplied Text → Datetime → Expense → Tx Expense
  apply_category unchanged now e = pure e
  apply_category (supplied key) now e = do
    if text_eq key e.category_key then pure tt else require_active_category key
    rejecting (Expense.edit_category e key now)

  abbrev apply_note : Supplied (Option Text) → Datetime → Expense → Tx Expense
  apply_note unchanged now e = pure e
  apply_note (supplied note) now e = rejecting (Expense.edit_note e note now)

  -- `_apply`
  unfoldable pub apply : Expense → ExpenseEdit → ℕ → Datetime → Tx Expense
  unfolding text_eq date_eq require_acceptable_date require_active_category
  apply expense edit caller_id now = do
    e1 ← apply_money edit.money now expense
    e2 ← apply_date edit.transaction_date caller_id now e1
    e3 ← apply_merchant edit.merchant now e2
    e4 ← apply_category edit.category_key now e3
    apply_note edit.note now e4

-- `ExpenseFieldChange(field, …)` for each field whose value differs
abbrev cons_change :
    Result ValueError ExpenseFieldChange
    → Result ValueError (List ExpenseFieldChange)
    → Result ValueError (List ExpenseFieldChange)
cons_change (err e) rest = err e
cons_change (ok c) (err e) = err e
cons_change (ok c) (ok cs) = ok (c ∷ cs)

unfoldable pub changes_between :
    List ExpenseField → Expense → Expense → Result ValueError (List ExpenseFieldChange)
changes_between [] before after = ok []
changes_between (f ∷ fields) before after =
    let rest = changes_between fields before after in
    let old = expense_field_value before f in
    let new = expense_field_value after f in
    if value_eq old new then rest else cons_change (make_change f old new) rest

-- `execute` from the point where the changes are known
unfoldable pub record_edit :
    Expense → Expense → List ExpenseFieldChange → ℕ → ℕ → Datetime → Tx Expense
record_edit before after [] caller_id fresh now = pure before
record_edit before after (c ∷ cs) caller_id fresh now = do
  change ← lift (make_record fresh before.id caller_id now edited (c ∷ cs))
  append_record change
  update_expense after
  pure after

module _ ⦃u : Unicode⦄ ⦃z : Zones⦄ where
  -- `EditExpense.execute`
  unfoldable pub execute : ℕ → ℕ → ExpenseEdit → ℕ → Datetime → Tx Expense
  execute expense_id caller_id edit fresh now = do
    found ← gets (get_active_expense expense_id caller_id)
    before ← or_raise found expense_not_found
    after ← apply before edit caller_id now
    changes ← lift (changes_between all_fields before after)
    record_edit before after changes caller_id fresh now
