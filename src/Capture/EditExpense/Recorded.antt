-- ===== src/Capture/EditExpense/Recorded.antt =====
-- What an edit with its record leaves in the tables.
use mathlib.Core.Path.{subst}
use mint_flow.Prelude.{
  ℕ, ◌≡◌, refl, sym, ◌∙◌, ap, some, List, [], ◌∷◌, ◌++◌, map, arith, true, ◌==◌, if◌then◌else◌,
}
use mint_flow.Prelude.Datetime.{Datetime, Instant, astimezone_utc}
use mint_flow.Capture.Changes.{ExpenseField, ExpenseFieldChange, ExpenseChangeRecord, edited}
use mint_flow.Capture.Database.{Db, get_active_expense, write_expense}
use mint_flow.Capture.EditExpense.{ExpenseEdit}
use mint_flow.Capture.EditExpense.Laws.{change_of, difference}
use mint_flow.Domain.Expense.{Expense}
use mint_flow.Capture.EditExpense.Applied.{with_edit}
use mint_flow.Capture.EditExpense.Written.{HaveDistinctIds, map-write_expense}

-- the record of an edit
abbrev pub edit_of : Expense → ℕ → ℕ → Datetime → List ExpenseFieldChange → ExpenseChangeRecord
edit_of before caller_id fresh now changes = record {
  id = fresh;
  expense_id = before.id;
  actor_user_id = caller_id;
  occurred_at = astimezone_utc now;
  change_type = edited;
  changes = changes;
}

-- nothing without a change, otherwise the rows that are given and the record
abbrev pub recorded : Expense → List Expense → ℕ → ℕ → Datetime → List ExpenseFieldChange → Db → Db
recorded before rows caller_id fresh now [] db = db
recorded before rows caller_id fresh now (c ∷ cs) db = record db {
  expenses = rows;
  change_records = db.change_records ++ edit_of before caller_id fresh now (c ∷ cs) ∷ [];
}

abbrev pub written : Expense → Expense → ℕ → ℕ → Datetime → List ExpenseFieldChange → Db → Db
written before after caller_id fresh now changes db =
    recorded before (map (write_expense after) db.expenses) caller_id fresh now changes db

abbrev pub returned : Expense → Expense → List ExpenseFieldChange → Expense
returned before after [] = before
returned before after (c ∷ cs) = after

-- The changes are the differences; without one nothing is written, and otherwise the row of the
-- expense is the new one, every other row is as it was, and the record is appended.
abbrev pub Outcome :
    Expense → Expense → List ExpenseFieldChange → ℕ → ℕ → Datetime → Db → Expense → Db → Type 0
Outcome before after changes caller_id fresh now db f db' =
    ((x : ExpenseField) → change_of x changes ≡ difference before after x)
    × (f ≡ returned before after changes)
    × (db'
        ≡ recorded before
            (map (λ (row : Expense). if row.id == before.id then after else row) db.expenses)
            caller_id fresh now changes db)

abbrev pub WriterOutcome :
    Expense → Expense → List ExpenseFieldChange → ℕ → ℕ → Datetime → Db → Expense → Db → Type 0
WriterOutcome before after changes caller_id fresh now db f db' =
    ((x : ExpenseField) → change_of x changes ≡ difference before after x)
    × (f ≡ returned before after changes)
    × (db' ≡ written before after caller_id fresh now changes db)

whole_row :
    (before after : Expense) (edit : ExpenseEdit) (at : Instant)
    → after ≡ with_edit edit at before
    → write_expense after before ≡ after
whole_row before after edit at values =
    subst (λ e. write_expense e before ≡ e) (sym values) (rw self refl)
  where
    self : (before.id == before.id) ≡ true
    self = ground arith

-- What the writer does is what the outcome says, where the ids of the rows are distinct.
pub WriterOutcome-Outcome :
    (expense_id caller_id : ℕ) (edit : ExpenseEdit) (before after : Expense)
    (changes : List ExpenseFieldChange) (fresh : ℕ) (now : Datetime) (db : Db) {f : Expense}
    {db' : Db}
    → HaveDistinctIds db.expenses
    → get_active_expense expense_id caller_id db ≡ some before
    → after ≡ with_edit edit (astimezone_utc now) before
    → WriterOutcome before after changes caller_id fresh now db f db'
    → Outcome before after changes caller_id fresh now db f db'
unfolding get_active_expense
WriterOutcome-Outcome expense_id caller_id edit before after changes fresh now db distinct found
      values (lists, same, d) =
    let same_id : after.id ≡ before.id = ap (λ (e : Expense). e.id) values in
    let rows =
      map-write_expense expense_id caller_id before after db.expenses distinct found same_id
        (whole_row before after edit (astimezone_utc now) values) in
    (
      lists,
      same,
      d
          ∙ ap (λ xs. recorded before xs caller_id fresh now changes db)
              (rows
                ∙ ap (λ k. map (λ (row : Expense). if row.id == k then after else row) db.expenses)
                    same_id),
    )
