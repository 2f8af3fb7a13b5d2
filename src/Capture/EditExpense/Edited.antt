-- ===== src/Capture/EditExpense/Edited.antt =====
-- What `EditExpense.execute` does to the tables.
use mathlib.Core.Path.{subst}
use mint_flow.Prelude.{ℕ, ◌≡◌, refl, sym, ◌∙◌, ap, Option, none, some, List, [], ◌∷◌, arith}
use mint_flow.Prelude.Datetime.{Datetime, astimezone_utc}
use mint_flow.Prelude.Result.{ok, ok_injective}
use mint_flow.Prelude.Text.{Unicode}
use mint_flow.Capture.Changes.{ExpenseField, ExpenseFieldChange, all_fields, make_record}
use mint_flow.Capture.Database.{
  Db, Tx, ◌>>=◌, lift, or_raise, get_active_expense, update_expense, append_record,
}
use mint_flow.Capture.Database.Tx.{ok_of_tx, lift-eq-ok}
use mint_flow.Capture.EditExpense.{ExpenseEdit, apply, changes_between, record_edit, execute}
use mint_flow.Capture.EditExpense.Laws.{change_of, difference, changes_between-lists}
use mint_flow.Capture.Errors.{expense_not_found}
use mint_flow.Domain.Expense.{Expense}
use mint_flow.Domain.User.Preferences.{Zones}
use mint_flow.Capture.EditExpense.Applied.{with_edit, after_apply}
use mint_flow.Capture.EditExpense.Written.{HaveDistinctIds}
use mint_flow.Capture.EditExpense.Recorded.{
  written, returned, Outcome, WriterOutcome, WriterOutcome-Outcome,
}

record_edit-eq-ok :
    (before after : Expense) (cs : List ExpenseFieldChange) (caller_id fresh : ℕ) (now : Datetime)
    (db : Db) {f : Expense} {db' : Db}
    → record_edit before after cs caller_id fresh now db ≡ ok (f, db')
    → (f ≡ returned before after cs) × (db' ≡ written before after caller_id fresh now cs db)
unfolding ◌>>=◌ record_edit append_record update_expense make_record
record_edit-eq-ok before after [] caller_id fresh now db h = ground arith
record_edit-eq-ok before after (c ∷ cs) caller_id fresh now db h = (ground arith, ground arith)

-- Any list of changes that the comparison gives is the one of the differences.
compared_changes :
    (before after : Expense) (changes : List ExpenseFieldChange)
    → changes_between all_fields before after ≡ ok changes
    → (x : ExpenseField) → change_of x changes ≡ difference before after x
compared_changes before after changes compared =
    let (cs, total, lists) = changes_between-lists before after in
    subst (λ ds. (x : ExpenseField) → change_of x ds ≡ difference before after x)
      (ok_injective (sym compared ∙ total)) lists

-- the end of `execute`, where the changes are to be found
abbrev compare_and_record : Expense → ℕ → ℕ → Datetime → Expense → Tx Expense
compare_and_record before caller_id fresh now after = do
  changes ← lift (changes_between all_fields before after)
  record_edit before after changes caller_id fresh now

compare-WriterOutcome :
    (before after : Expense) (caller_id fresh : ℕ) (now : Datetime) (db : Db) {f : Expense}
    {db' : Db}
    → compare_and_record before caller_id fresh now after db ≡ ok (f, db')
    → (changes : List ExpenseFieldChange) × WriterOutcome before after changes caller_id fresh now
        db f db'
compare-WriterOutcome before after caller_id fresh now db {f = f} {db' = db'} h =
    let (changes, db1, p, h1) = ok_of_tx (lift (changes_between all_fields before after)) _ h in
    on_changes changes db1 p h1
  where
    on_changes :
        (changes : List ExpenseFieldChange) (db1 : Db)
        → lift (changes_between all_fields before after) db ≡ ok (changes, db1)
        → record_edit before after changes caller_id fresh now db1 ≡ ok (f, db')
        → (changes : List ExpenseFieldChange) × WriterOutcome before after changes caller_id fresh
            now db f db'
    on_changes changes db1 p h1 =
        let (compared, d1) = lift-eq-ok _ p in
        let (same, d2) = record_edit-eq-ok before after changes caller_id fresh now db1 h1 in
        (
          changes,
          (
            compared_changes before after changes compared,
            same,
            d2 ∙ ap (written before after caller_id fresh now changes) d1,
          ),
        )

module _ ⦃u : Unicode⦄ ⦃z : Zones⦄ where
  abbrev edit_found : ExpenseEdit → ℕ → ℕ → Datetime → Expense → Tx Expense
  edit_found edit caller_id fresh now before = do
    after ← apply before edit caller_id now
    compare_and_record before caller_id fresh now after

  edit_found-Edited :
      (before : Expense) (edit : ExpenseEdit) (caller_id fresh : ℕ) (now : Datetime) (db : Db)
      {f : Expense} {db' : Db}
      → edit_found edit caller_id fresh now before db ≡ ok (f, db')
      → (after : Expense) × (changes : List ExpenseFieldChange) × (after
          ≡ with_edit edit (astimezone_utc now) before)
        × WriterOutcome before after changes caller_id fresh now db f db'
  edit_found-Edited before edit caller_id fresh now db {f = f} {db' = db'} h =
      let (after, db1, p, h1) = ok_of_tx (apply before edit caller_id now) _ h in
      on_after after db1 p h1
    where
      on_after :
          (after : Expense) (db1 : Db)
          → apply before edit caller_id now db ≡ ok (after, db1)
          → compare_and_record before caller_id fresh now after db1 ≡ ok (f, db')
          → (after : Expense) × (changes : List ExpenseFieldChange) × (after
              ≡ with_edit edit (astimezone_utc now) before)
            × WriterOutcome before after changes caller_id fresh now db f db'
      on_after after db1 p h1 =
          let (values, same) = after_apply before edit caller_id now db p in
          let (changes, outcome) = compare-WriterOutcome before after caller_id fresh now db1 h1 in
          (
            after,
            changes,
            values,
            subst (λ d. WriterOutcome before after changes caller_id fresh now d f db') same
                outcome,
          )

-- Where the ids in the table of expenses are distinct, as its primary key makes them, an edit that
-- succeeded has done this to the caller's active expense `before`: if no value differs from the
-- supplied ones, nothing; otherwise its row in the table has the supplied values, is modified
-- now and keeps the others, every other row is as it was, and one record, of the caller, is appended, whose entry for each field is the old and the new value if these differ, and
-- which has none for the others.
pub execute-Edited :
    ⦃u : Unicode⦄ ⦃z : Zones⦄ (expense_id caller_id : ℕ) (edit : ExpenseEdit) (fresh : ℕ)
    (now : Datetime) (db : Db) {f : Expense} {db' : Db}
    → HaveDistinctIds db.expenses
    → execute expense_id caller_id edit fresh now db ≡ ok (f, db')
    → (before : Expense) × (after : Expense) × (changes : List ExpenseFieldChange)
      × (get_active_expense expense_id caller_id db ≡ some before)
      × (after ≡ with_edit edit (astimezone_utc now) before)
      × Outcome before after changes caller_id fresh now db f db'
unfolding ◌>>=◌ execute
execute-Edited expense_id caller_id edit fresh now db {f = f} {db' = db'} distinct h =
    on_found (get_active_expense expense_id caller_id db) refl (after_gets h)
  where
    after_gets :
        execute expense_id caller_id edit fresh now db ≡ ok (f, db')
        → (or_raise (get_active_expense expense_id caller_id db) expense_not_found
              >>= edit_found edit caller_id fresh now)
            db
          ≡ ok (f, db')
    after_gets k = k

    on_found :
        (o : Option Expense)
        → get_active_expense expense_id caller_id db ≡ o
        → (or_raise o expense_not_found >>= edit_found edit caller_id fresh now) db ≡ ok (f, db')
        → (before : Expense) × (after : Expense) × (changes : List ExpenseFieldChange)
          × (get_active_expense expense_id caller_id db ≡ some before)
          × (after ≡ with_edit edit (astimezone_utc now) before)
          × Outcome before after changes caller_id fresh now db f db'
    on_found none p k = cc
    on_found (some before) p k =
        let (after, changes, values, outcome) =
          edit_found-Edited before edit caller_id fresh now db k in
        (
          before,
          after,
          changes,
          p,
          values,
          WriterOutcome-Outcome expense_id caller_id edit before after changes fresh now db distinct
              p values outcome,
        )
