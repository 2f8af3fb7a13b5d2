-- ===== src/Capture/Deletion/Laws.antt =====
-- What `DeleteExpense` and `RestoreExpense` guarantee: they are recorded once, are safe to repeat, and
-- undo each other.
use mathlib.Core.Option.{some-injective}
use mathlib.Core.Path.{subst}
use mint_flow.Prelude.{
  ℕ, ◌≡◌, refl, ap, sym, ◌∙◌, true, false, Option, none, some, [], ◌∷◌, ◌++◌, map, Bool-cases, inl,
  inr, arith,
}
use mint_flow.Prelude.Datetime.{Datetime, astimezone_utc}
use mint_flow.Prelude.Result.{ok}
use mint_flow.Capture.Changes.{ExpenseChangeRecord, make_record}
use mint_flow.Capture.Database.{
  Db, ◌>>=◌, or_raise, get_expense, update_expense, append_record, write_expense,
}
use mint_flow.Capture.Database.Rows.{find-write_expense}
use mint_flow.Capture.Deletion.{
  Change, delete_expense, restore_expense, change_type, already_in_effect, transition, change_state,
  branch, execute,
}
use mint_flow.Capture.Errors.{expense_not_found}
use mint_flow.Domain.Expense
use mint_flow.Domain.Expense.{Expense}

-- The record of a change.
abbrev record_of : Change → ℕ → ℕ → ℕ → Datetime → ExpenseChangeRecord
record_of c expense_id caller_id fresh now = record {
  id = fresh;
  expense_id = expense_id;
  actor_user_id = caller_id;
  occurred_at = astimezone_utc now;
  change_type = change_type c;
  changes = [];
}

abbrev written : Change → Expense → Expense → ℕ → ℕ → Datetime → Db → Db
written c before after caller_id fresh now db = record db {
  expenses = map (write_expense after) db.expenses;
  change_records = db.change_records ++ record_of c before.id caller_id fresh now ∷ [];
}

change_state-eq-ok :
    (c : Change) (e : Expense) (caller_id fresh : ℕ) (now : Datetime) (db : Db) {f : Expense}
    {db' : Db}
    → change_state c e caller_id fresh now db ≡ ok (f, db')
    → (transition c e now ≡ ok f) × (db' ≡ written c e f caller_id fresh now db)
unfolding ◌>>=◌ change_state append_record update_expense make_record
change_state-eq-ok delete_expense e caller_id fresh now db h = (ground arith, ground arith)
change_state-eq-ok restore_expense e caller_id fresh now db h = (ground arith, ground arith)

-- A change keeps the identity of the expense, is then in effect, and its row is written whole.
transition-keeps :
    (c : Change) (e : Expense) (now : Datetime) {f : Expense}
    → transition c e now ≡ ok f
    → (f.id ≡ e.id)
      × (f.owner_id ≡ e.owner_id)
      × (already_in_effect c f ≡ true)
      × (write_expense f e ≡ f)
unfolding Expense.delete Expense.restore
transition-keeps delete_expense e now h = ground arith
transition-keeps restore_expense e now h = ground arith

-- What a call that succeeds has done to the expense `e` that its caller owns: nothing, if the change
-- was in effect; otherwise it has moved the expense, written its row and appended one record.
pub record Changed (c : Change) (e : Expense) (caller_id fresh : ℕ) (now : Datetime) (db : Db)
    (f : Expense) (db' : Db) : Type 0 where
  pub in_effect : already_in_effect c e ≡ true → (f ≡ e) × (db' ≡ db)
  pub moved :
      already_in_effect c e ≡ false
      → (transition c e now ≡ ok f) × (db' ≡ written c e f caller_id fresh now db)

-- Deleting and restoring write nothing if the change is in effect; otherwise they apply the domain's
-- transition, write the row of the expense and append exactly one record of the change, without field
-- changes. They succeed only for an expense that the caller owns.
pub execute-Changed :
    (c : Change) (expense_id caller_id fresh : ℕ) (now : Datetime) (db : Db) {f : Expense}
    {db' : Db}
    → execute c expense_id caller_id fresh now db ≡ ok (f, db')
    → (e : Expense) × (get_expense expense_id caller_id db ≡ some e)
      × Changed c e caller_id fresh now db f db'
unfolding ◌>>=◌ execute
execute-Changed c expense_id caller_id fresh now db {f = f} {db' = db'} h =
    let (e, found, rest) = on_found (get_expense expense_id caller_id db) refl h in
    (
      e,
      found,
      record {
        in_effect = λ p. in_effect e p rest;
        moved = λ p. change_state-eq-ok c e caller_id fresh now db (moves e p rest);
      },
    )
  where
    on_found :
        (o : Option Expense)
        → get_expense expense_id caller_id db ≡ o
        → ((or_raise o expense_not_found >>= branch c caller_id fresh now) db ≡ ok (f, db'))
        → (e : Expense) × (get_expense expense_id caller_id db ≡ some e)
          × (branch c caller_id fresh now e db ≡ ok (f, db'))
    on_found none p k = cc
    on_found (some e) p k = (e, p, k)

    in_effect :
        (e : Expense)
        → already_in_effect c e ≡ true
        → branch c caller_id fresh now e db ≡ ok (f, db')
        → (f ≡ e) × (db' ≡ db)
    in_effect e p k = ground arith

    moves :
        (e : Expense)
        → already_in_effect c e ≡ false
        → branch c caller_id fresh now e db ≡ ok (f, db')
        → change_state c e caller_id fresh now db ≡ ok (f, db')
    moves e p k = ground arith

answers :
    (c : Change) (expense_id caller_id fresh : ℕ) (now : Datetime) (db : Db) (f : Expense)
    → get_expense expense_id caller_id db ≡ some f
    → already_in_effect c f ≡ true
    → execute c expense_id caller_id fresh now db ≡ ok (f, db)
unfolding ◌>>=◌ execute
answers c expense_id caller_id fresh now db f found p = ground arith

-- After a change, its caller finds the moved expense.
moved_found :
    (c : Change) (expense_id caller_id fresh : ℕ) (now : Datetime) (db : Db) (e : Expense)
    {f : Expense}
    → get_expense expense_id caller_id db ≡ some e
    → transition c e now ≡ ok f
    → get_expense expense_id caller_id (written c e f caller_id fresh now db) ≡ some f
unfolding get_expense
moved_found c expense_id caller_id fresh now db e {f = f} found h =
    let (_, _, _, whole) = transition-keeps c e now h in
    find-write_expense expense_id caller_id f db.expenses found ∙ ap some whole

-- A deletion or a restoration that succeeded, repeated at any time, returns the same expense and
-- writes nothing: no second record, no new time.
pub change_again :
    (c : Change) (expense_id caller_id fresh again : ℕ) (now later : Datetime) (db : Db)
    {f : Expense} {db' : Db}
    → execute c expense_id caller_id fresh now db ≡ ok (f, db')
    → execute c expense_id caller_id again later db' ≡ ok (f, db')
change_again c expense_id caller_id fresh again now later db {f = f} h =
    let (e, found, changed) = execute-Changed c expense_id caller_id fresh now db h in
    elim (Bool-cases (already_in_effect c e)) [
      | inl old ↦
          let (same, still) = changed.in_effect old in
          rw (still, same) (answers c expense_id caller_id again later db e found old)
      | inr new ↦
          let (moved, writes) = changed.moved new in
          rw writes (
            answers c expense_id caller_id again later (written c e f caller_id fresh now db) f
              (moved_found c expense_id caller_id fresh now db e found moved)
              (transition-keeps c e now moved).2)
    ]

undo :
    (e : Expense) (now later : Datetime) {f g : Expense}
    → Expense.is_active e ≡ true
    → transition delete_expense e now ≡ ok f
    → transition restore_expense f later ≡ ok g
    → (g ≡ record e { modified_at = astimezone_utc later }) × (f.id ≡ e.id)
unfolding Expense.delete Expense.restore
undo e now later active h k = ground arith

-- Restoring the active expense that its owner deleted gives it back, but for the time of the change,
-- and leaves two records: the deletion and the restoration, in this order.
pub restore_after_delete :
    (expense_id caller_id fresh again : ℕ) (now later : Datetime) (db : Db) (e : Expense)
    {f g : Expense} {db' db'' : Db}
    → get_expense expense_id caller_id db ≡ some e
    → Expense.is_active e ≡ true
    → execute delete_expense expense_id caller_id fresh now db ≡ ok (f, db')
    → execute restore_expense expense_id caller_id again later db' ≡ ok (g, db'')
    → (g ≡ record e { modified_at = astimezone_utc later })
      × (get_expense expense_id caller_id db'' ≡ some g)
      × (db''.change_records
          ≡ (db.change_records ++ record_of delete_expense e.id caller_id fresh now ∷ [])
            ++ record_of restore_expense e.id caller_id again later ∷ [])
restore_after_delete expense_id caller_id fresh again now later db e {f = f} {g = g} {db' = db'}
      {db'' = db''} found active h k =
    let (e1, found1, first1) = execute-Changed delete_expense expense_id caller_id fresh now db h in
    let first : Changed delete_expense e caller_id fresh now db f db' =
      subst (λ x. Changed delete_expense x caller_id fresh now db f db')
        (some-injective e1 e (sym found1 ∙ found)) first1 in
    let (gone, writes) = first.moved (ground arith) in
    let found_f : get_expense expense_id caller_id db' ≡ some f =
      rw writes (moved_found delete_expense expense_id caller_id fresh now db e found gone) in
    let (f1, found2, second1) =
      execute-Changed restore_expense expense_id caller_id again later db' k in
    let second : Changed restore_expense f caller_id again later db' g db'' =
      subst (λ x. Changed restore_expense x caller_id again later db' g db'')
        (some-injective f1 f (sym found2 ∙ found_f)) second1 in
    let (_, _, inactive, _) = transition-keeps delete_expense e now gone in
    let (back, writes') = second.moved (ground arith) in
    let (undone, id) = undo e now later active gone back in
    (
      undone,
      rw writes' (moved_found restore_expense expense_id caller_id again later db' f found_f back),
      rw (writes', writes, id) refl,
    )
