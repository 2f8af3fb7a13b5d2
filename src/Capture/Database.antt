-- ===== src/Capture/Database.antt =====
-- The tables that the capture use cases work on, and the queries of
-- src/mintflow/infrastructure/persistence/capture_drafts.py, expenses.py, expense_changes.py,
-- categories.py and users.py. A use case is one transaction: it reads and writes the tables, and an
-- exception that leaves it rolls all of its writes back. Of the constraints of models.py the unique
-- ones on expenses are checked; foreign keys are not.
pub mod Tx
pub mod Rows
use mint_flow.Prelude.{
  ℕ, Bool, true, false, Option, none, some, List, [], ◌∷◌, ◌++◌, map, find, ◌&&◌, ◌||◌, ◌==◌,
  is_some, if◌then◌else◌,
}
use mint_flow.Prelude.Result.{Result, ok, err}
use mint_flow.Prelude.Text.{Text, text_eq}
use mint_flow.Capture.Changes.{ExpenseChangeRecord}
use mint_flow.Capture.Errors.{CaptureError, integrity_error, value_error}
use mint_flow.Domain.Category.{Category}
use mint_flow.Domain.Draft.{CaptureDraft}
use mint_flow.Domain.Errors.{ValueError}
use mint_flow.Domain.Expense
use mint_flow.Domain.Expense.{Expense}
use mint_flow.Domain.User.{User}

pub record Db : Type 0 where
  pub drafts : List CaptureDraft
  pub expenses : List Expense
  pub change_records : List ExpenseChangeRecord
  pub users : List User
  pub categories : List Category

abbrev pub Tx : Type 0 → Type 0
Tx A = Db → Result CaptureError (A × Db)

module _ {A B : Type 0} where
  infixl 5 ◌>>=◌
  unfoldable pub ◌>>=◌ : Tx A → (A → Tx B) → Tx B
  ◌>>=◌ m rest db = elim (m db) [ err e ↦ err e | ok (a, db') ↦ rest a db' ]

module _ {B : Type 0} where
  infixl 5 ◌>>◌
  abbrev pub ◌>>◌ : Tx (Unit {0}) → Tx B → Tx B
  first >> rest = first >>= λ _. rest

module _ {A : Type 0} where
  abbrev pub pure : A → Tx A
  pure a db = ok (a, db)

  abbrev pub raise : CaptureError → Tx A
  raise e db = err e

  -- a call of the domain, whose `ValueError` goes through
  abbrev pub lift : Result ValueError A → Tx A
  lift (ok a) db = ok (a, db)
  lift (err e) db = err (value_error e)

  abbrev pub or_raise : Option A → CaptureError → Tx A
  or_raise none e = raise e
  or_raise (some a) e = pure a

abbrev pub gets : {A : Type 0} → (Db → A) → Tx A
gets f db = ok (f db, db)

-- where id = draft_id and owner_id = owner_id
abbrev pub is_draft : ℕ → ℕ → CaptureDraft → Bool
is_draft draft_id owner_id d = d.id == draft_id && d.owner_id == owner_id

unfoldable pub get_draft : ℕ → ℕ → Db → Option CaptureDraft
get_draft draft_id owner_id db = find (is_draft draft_id owner_id) db.drafts

-- `_record_values`: every column but the id, the creation time and the receipt
abbrev pub write_draft : CaptureDraft → CaptureDraft → CaptureDraft
write_draft new row =
    if row.id == new.id
    then record new { id = row.id; created_at = row.created_at; receipt_id = row.receipt_id }
    else row

unfoldable pub update_draft : CaptureDraft → Tx (Unit {0})
update_draft draft db = ok (tt, record db { drafts = map (write_draft draft) db.drafts })

abbrev pub is_expense : ℕ → ℕ → Expense → Bool
is_expense expense_id owner_id e = e.id == expense_id && e.owner_id == owner_id

abbrev pub is_active_expense : ℕ → ℕ → Expense → Bool
is_active_expense expense_id owner_id e = is_expense expense_id owner_id e && Expense.is_active e

-- `get` and `get_owned_for_update`
unfoldable pub get_expense : ℕ → ℕ → Db → Option Expense
get_expense expense_id owner_id db = find (is_expense expense_id owner_id) db.expenses

unfoldable pub get_active_expense : ℕ → ℕ → Db → Option Expense
get_active_expense expense_id owner_id db = find (is_active_expense expense_id owner_id) db.expenses

-- the primary key and `uq_expenses_capture_draft_id`
abbrev pub conflicts : Expense → Expense → Bool
conflicts new row = row.id == new.id || row.capture_draft_id == new.capture_draft_id

abbrev insert_unless : Option Expense → Expense → Tx (Unit {0})
insert_unless none e db = ok (tt, record db { expenses = db.expenses ++ e ∷ [] })
insert_unless (some conflict) e db = err integrity_error

unfoldable pub create_expense : Expense → Tx (Unit {0})
create_expense e db = insert_unless (find (conflicts e) db.expenses) e db

-- `_record_values`: the columns of an expense that may change
abbrev pub write_expense : Expense → Expense → Expense
write_expense new row =
    if row.id == new.id
    then record row {
      money = new.money;
      transaction_date = new.transaction_date;
      merchant = new.merchant;
      category_key = new.category_key;
      note = new.note;
      modified_at = new.modified_at;
      deleted_at = new.deleted_at;
    }
    else row

unfoldable pub update_expense : Expense → Tx (Unit {0})
update_expense e db = ok (tt, record db { expenses = map (write_expense e) db.expenses })

unfoldable pub append_record : ExpenseChangeRecord → Tx (Unit {0})
append_record r db = ok (tt, record db { change_records = db.change_records ++ r ∷ [] })

unfoldable pub get_user : ℕ → Db → Option User
get_user user_id db = find (λ (u : User). u.id == user_id) db.users

unfoldable pub get_category : Text → Db → Option Category
unfolding text_eq
get_category key db = find (λ (c : Category). text_eq c.key key) db.categories
