-- ===== src/Capture/ConfirmDraft/Laws.antt =====
-- What `ConfirmCaptureDraft.execute` guarantees: one draft gives one expense, with the draft's values.
use mint_flow.Prelude.{ℕ, ◌≡◌, true, false, none, some, [], ◌∷◌, ◌++◌, map, find, arith}
use mint_flow.Prelude.Datetime.{Datetime}
use mint_flow.Prelude.Result.{Result, ok, err}
use mint_flow.Prelude.Text.{Unicode}
use mint_flow.Capture.Database.{
  Db, ◌>>=◌, get_draft, get_expense, create_expense, update_draft, write_draft, conflicts,
}
use mint_flow.Capture.ConfirmDraft.{new_expense, confirm_with, confirm_found, execute}
use mint_flow.Domain.Draft.{CaptureDraft, is_confirmed}
use mint_flow.Domain.Draft.Lifecycle
use mint_flow.Domain.Errors.{ValueError}
use mint_flow.Domain.Expense
use mint_flow.Domain.Expense.{Expense}
use mint_flow.Domain.Money.{Money}
use mint_flow.Domain.User.Preferences.{Zones}
use mint_flow.Domain.Values.{TransactionDate}

abbrev returned : CaptureDraft → Result ValueError CaptureDraft → CaptureDraft
returned d (ok d') = d'
returned d (err e) = d

module _ ⦃u : Unicode⦄ ⦃z : Zones⦄ where
  pub confirm_with-eq-ok :
      (draft : CaptureDraft) (caller_id fresh : ℕ) (now : Datetime) (amount : Money)
      (date : TransactionDate) (db : Db) {e : Expense} {db' : Db}
      → confirm_with draft caller_id fresh now amount date db ≡ ok (e, db')
      → (d' : CaptureDraft) × (Expense.create fresh (new_expense draft amount date) now ≡ ok e)
        × (find (conflicts e) db.expenses ≡ none)
        × (Lifecycle.confirm draft caller_id e.id now ≡ ok d')
        × (db' ≡ record db {
          drafts = map (write_draft d') db.drafts;
          expenses = db.expenses ++ e ∷ [];
        })
  unfolding ◌>>=◌ confirm_with create_expense update_draft
  confirm_with-eq-ok draft caller_id fresh now amount date db {e = e} h = (
    returned draft (Lifecycle.confirm draft caller_id e.id now),
    ground arith,
    ground arith,
    ground arith,
    ground arith,
  )

  -- A draft that is not confirmed has gone through `confirm_with`.
  pub first_time :
      (draft : CaptureDraft) (caller_id fresh : ℕ) (now : Datetime) (db : Db) {e : Expense}
      {db' : Db}
      → is_confirmed draft.state ≡ false
      → confirm_found draft caller_id fresh now db ≡ ok (e, db')
      → (amount : Money) × (date : TransactionDate) × (draft.amount ≡ some amount)
        × (draft.transaction_date ≡ some date)
        × (confirm_with draft caller_id fresh now amount date db ≡ ok (e, db'))
  unfolding ◌>>=◌ confirm_found
  first_time draft caller_id fresh now db new h = ground arith

  pub execute-eq-ok :
      (draft_id caller_id fresh : ℕ) (now : Datetime) (db : Db) {e : Expense} {db' : Db}
      → execute draft_id caller_id fresh now db ≡ ok (e, db')
      → (draft : CaptureDraft) × (get_draft draft_id caller_id db ≡ some draft)
        × (confirm_found draft caller_id fresh now db ≡ ok (e, db'))
  unfolding ◌>>=◌ execute
  execute-eq-ok draft_id caller_id fresh now db h = ground arith

  -- A draft that is confirmed, with an active expense, is answered from the table.
  pub answers :
      (draft_id caller_id fresh expense_id : ℕ) (now : Datetime) (db : Db) (row : CaptureDraft)
      (e : Expense)
      → get_draft draft_id caller_id db ≡ some row
      → is_confirmed row.state ≡ true
      → row.expense_id ≡ some expense_id
      → get_expense expense_id caller_id db ≡ some e
      → Expense.is_active e ≡ true
      → execute draft_id caller_id fresh now db ≡ ok (e, db)
  unfolding ◌>>=◌ execute confirm_found
  answers draft_id caller_id fresh expense_id now db row e found state id expense active =
      ground arith

  pub answered :
      (draft : CaptureDraft) (caller_id fresh : ℕ) (now : Datetime) (db : Db) {e : Expense}
      {db' : Db}
      → is_confirmed draft.state ≡ true
      → confirm_found draft caller_id fresh now db ≡ ok (e, db')
      → (expense_id : ℕ) × (draft.expense_id ≡ some expense_id)
        × (get_expense expense_id caller_id db ≡ some e)
        × (Expense.is_active e ≡ true)
        × (db' ≡ db)
  unfolding ◌>>=◌ confirm_found
  answered draft caller_id fresh now db old h = ground arith
