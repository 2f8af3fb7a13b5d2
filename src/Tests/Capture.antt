-- ===== src/Tests/Capture.antt =====
-- The capture use cases at a concrete database.
use mint_flow.Prelude.{◌≡◌, refl, none, some, List, [], ◌∷◌, ◌++◌, find}
use mint_flow.Prelude.Text.{codes, text_eq}
use mint_flow.Prelude.Datetime.{Datetime, aware}
use mint_flow.Prelude.Int.{pos}
use mint_flow.Prelude.Result.{ok}
use mint_flow.Calendar.{date_lt, next_day}
use mint_flow.Capture.Changes.{
  ExpenseFieldChange, ExpenseChangeRecord, edited, deleted, restored, int, amount_minor_units,
  make_change, make_record, value_eq, check_value, isoformat, expense_field_value,
}
use mint_flow.Capture.ConfirmDraft
use mint_flow.Capture.ConfirmDraft.Once.{execute-execute, execute-Gives, Gives}
use mint_flow.Capture.Database.{
  Db, ◌>>=◌, get_draft, get_expense, get_active_expense, get_user, create_expense, update_draft,
  update_expense, append_record, conflicts,
}
use mint_flow.Capture.Dates.{is_within_future_tolerance}
use mint_flow.Capture.Deletion
use mint_flow.Capture.Deletion.{delete_expense, restore_expense}
use mint_flow.Capture.Deletion.Laws
use mint_flow.Capture.EditExpense
use mint_flow.Capture.EditExpense.{
  ExpenseEdit, unchanged, supplied, changes_between, require_acceptable_date,
  require_active_category,
}
use mint_flow.Capture.EditExpense.Applied
use mint_flow.Capture.EditExpense.Edited
use mint_flow.Capture.EditExpense.Recorded
use mint_flow.Domain.Category.{require_stable_key}
use mint_flow.Domain.Draft.{CaptureDraft, telegram_manual, ready_for_review, confirmed, user}
use mint_flow.Domain.Draft.Lifecycle
use mint_flow.Domain.Expense
use mint_flow.Domain.Expense.{Expense}
use mint_flow.Domain.Money.{Money, eur, currency_value}
use mint_flow.Domain.User
use mint_flow.Domain.User.{User}
use mint_flow.Domain.User.Preferences.{Zones}
use mint_flow.Domain.Values.{TransactionDate}
use mint_flow.Tests.Ascii.{ascii}

abbrev noon : Datetime
noon = aware 1000 (pos 0)

abbrev later : Datetime
later = aware 2000 (pos 0)

-- one zone, where it is always the same day
instance abbrev utc_zone : Zones
utc_zone = record {
  available = λ name. text_eq name (codes "UTC");
  local_date = λ name t. record { year = 2026; month = 5; day = 17 };
}

abbrev price : Money
price = record { minor_units = 1250; currency = eur }

abbrev day : TransactionDate
day = record { value = record { year = 2026; month = 5; day = 17 } }

abbrev pub owner : User
owner = record {
  id = 2;
  status = User.active;
  created_at = noon;
  deactivated_at = none;
  timezone = record { value = codes "UTC" };
  default_currency = none;
  ui_language = record { value = codes "en" };
  locale = none;
}

abbrev draft : CaptureDraft
draft = record {
  id = 1;
  owner_id = 2;
  source = telegram_manual;
  state = ready_for_review;
  revision = 2;
  amount = some price;
  amount_source = some user;
  transaction_date = some day;
  transaction_date_source = some user;
  merchant = none;
  merchant_source = none;
  category_key = none;
  category_key_source = none;
  note = none;
  expense_id = none;
  created_at = 1000;
  modified_at = 1000;
  confirmed_at = none;
  receipt_id = none;
  recognition_result_id = none;
}

abbrev pub start : Db
start = record {
  drafts = draft ∷ [];
  expenses = [];
  change_records = [];
  users = owner ∷ [];
  categories = [];
}

abbrev pub coffee : Expense
coffee = record {
  id = 7;
  owner_id = 2;
  money = price;
  transaction_date = day;
  category_key = codes "uncategorized";
  capture_draft_id = 1;
  created_at = 1000;
  modified_at = 1000;
  merchant = none;
  note = none;
  source = telegram_manual;
  receipt_id = none;
  deleted_at = none;
}

abbrev confirmed_draft : CaptureDraft
confirmed_draft = record draft { state = confirmed; expense_id = some 7; confirmed_at = some 1000 }

abbrev confirmed_db : Db
confirmed_db = record start { drafts = confirmed_draft ∷ []; expenses = coffee ∷ [] }

confirms : ConfirmDraft.execute 1 2 7 noon start ≡ ok (coffee, confirmed_db)
unfolding ConfirmDraft.execute ◌>>=◌ get_draft get_user create_expense update_draft
    is_within_future_tolerance Lifecycle.confirm Expense.create require_stable_key
    ConfirmDraft.confirm_found ConfirmDraft.confirm_with date_lt next_day
confirms = refl

execute-execute_example : ConfirmDraft.execute 1 2 8 later confirmed_db ≡ ok (coffee, confirmed_db)
execute-execute_example = execute-execute 1 2 7 8 noon later start confirms

execute-Gives_example :
    Gives draft coffee
    × (find (conflicts coffee) start.expenses ≡ none)
    × (confirmed_db.expenses ≡ start.expenses ++ coffee ∷ [])
    × (confirmed_db.change_records ≡ start.change_records)
    × (confirmed_db.users ≡ start.users)
    × (confirmed_db.categories ≡ start.categories)
unfolding get_draft
execute-Gives_example = execute-Gives 1 2 7 noon start draft refl refl confirms

abbrev gone : Expense
gone = record coffee { deleted_at = some 1000 }

abbrev back : Expense
back = record coffee { modified_at = 2000 }

abbrev pub deletion : ExpenseChangeRecord
deletion = record {
  id = 20;
  expense_id = 7;
  actor_user_id = 2;
  occurred_at = 1000;
  change_type = deleted;
  changes = [];
}

abbrev restoration : ExpenseChangeRecord
restoration = record {
  id = 21;
  expense_id = 7;
  actor_user_id = 2;
  occurred_at = 2000;
  change_type = restored;
  changes = [];
}

abbrev deleted_db : Db
deleted_db = record confirmed_db { expenses = gone ∷ []; change_records = deletion ∷ [] }

abbrev restored_db : Db
restored_db = record confirmed_db {
  expenses = back ∷ [];
  change_records = deletion ∷ restoration ∷ [];
}

deletes : Deletion.execute delete_expense 7 2 20 noon confirmed_db ≡ ok (gone, deleted_db)
unfolding Deletion.execute Deletion.change_state ◌>>=◌ get_expense Expense.delete make_record
    append_record update_expense
deletes = refl

restores : Deletion.execute restore_expense 7 2 21 later deleted_db ≡ ok (back, restored_db)
unfolding Deletion.execute Deletion.change_state ◌>>=◌ get_expense Expense.restore make_record
    append_record update_expense
restores = refl

finds_coffee : get_expense 7 2 confirmed_db ≡ some coffee
unfolding get_expense
finds_coffee = refl

restore_after_delete_example :
    (back ≡ record coffee { modified_at = 2000 })
    × (get_expense 7 2 restored_db ≡ some back)
    × (restored_db.change_records ≡ ([] ++ deletion ∷ []) ++ restoration ∷ [])
restore_after_delete_example =
    Laws.restore_after_delete 7 2 20 21 noon later confirmed_db coffee finds_coffee refl deletes
      restores

abbrev dear : Expense
dear = record coffee { money = record { minor_units = 1350; currency = eur }; modified_at = 2000 }

abbrev new_price : ExpenseEdit
new_price = record {
  money = supplied dear.money;
  transaction_date = unchanged;
  merchant = unchanged;
  category_key = unchanged;
  note = supplied none;
}

abbrev edited_db : Db
edited_db = record confirmed_db {
  expenses = dear ∷ [];
  change_records =
      record {
        id = 23;
        expense_id = 7;
        actor_user_id = 2;
        occurred_at = 2000;
        change_type = edited;
        changes = record { field = amount_minor_units; old = int 1250; new = int 1350 } ∷ [];
      }
      ∷ [];
}

edits : EditExpense.execute 7 2 new_price 23 later confirmed_db ≡ ok (dear, edited_db)
unfolding EditExpense.execute EditExpense.apply EditExpense.record_edit ◌>>=◌ get_active_expense
    Expense.edit_money Expense.edit_note changes_between make_change make_record append_record
    update_expense check_value expense_field_value value_eq text_eq isoformat currency_value
edits = refl

execute-Edited_example :
    (before : Expense) × (after : Expense) × (changes : List ExpenseFieldChange)
    × (get_active_expense 7 2 confirmed_db ≡ some before)
    × (after ≡ Applied.with_edit new_price 2000 before)
    × Recorded.Outcome before after changes 2 23 later confirmed_db dear edited_db
execute-Edited_example = Edited.execute-Edited 7 2 new_price 23 later confirmed_db (refl, tt) edits
