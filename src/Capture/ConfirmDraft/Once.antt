-- ===== src/Capture/ConfirmDraft/Once.antt =====
-- `ConfirmCaptureDraft.execute` is idempotent: one draft gives one expense.
use mathlib.Core.Option.{some-injective}
use mathlib.Core.Path.{subst}
use mint_flow.Prelude.{
  ℕ, ◌≡◌, sym, ◌∙◌, true, false, none, some, [], ◌∷◌, ◌++◌, find, find_satisfies, Bool-cases, inl,
  inr, arith, or_else,
}
use mint_flow.Prelude.Datetime.{Datetime}
use mint_flow.Prelude.Result.{ok}
use mint_flow.Prelude.Text.{Unicode}
use mint_flow.Capture.Database.{Db, get_draft, get_expense, conflicts, is_draft}
use mint_flow.Capture.Database.Rows.{find-write_draft, find-append_expense}
use mint_flow.Capture.ConfirmDraft.{new_expense, confirm_found, execute}
use mint_flow.Capture.ConfirmDraft.Laws.{
  confirm_with-eq-ok, first_time, execute-eq-ok, answers, answered,
}
use mint_flow.Domain.Category.{uncategorized_key}
use mint_flow.Domain.Draft.{CaptureDraft, is_confirmed}
use mint_flow.Domain.Draft.Lifecycle
use mint_flow.Domain.Expense
use mint_flow.Domain.Expense.{Expense, NewExpense}
use mint_flow.Domain.Money.{Money}
use mint_flow.Domain.Values.{TransactionDate}
use mint_flow.Domain.User.Preferences.{Zones}

-- The expense that a draft gave: its owner's, active, and with the draft's values; the category is
-- the uncategorized one if the draft names none.
pub record Gives (draft : CaptureDraft) (e : Expense) : Type 0 where
  pub owner : e.owner_id ≡ draft.owner_id
  pub amount : draft.amount ≡ some e.money
  pub date : draft.transaction_date ≡ some e.transaction_date
  pub merchant : e.merchant ≡ draft.merchant
  pub category : e.category_key ≡ or_else draft.category_key uncategorized_key
  pub note : e.note ≡ draft.note
  pub source : e.source ≡ draft.source
  pub receipt : e.receipt_id ≡ draft.receipt_id
  pub draft_id : e.capture_draft_id ≡ draft.id
  pub active : Expense.is_active e ≡ true

create-Gives :
    ⦃u : Unicode⦄ (fresh : ℕ) (draft : CaptureDraft) {m : Money} {t : TransactionDate}
    (now : Datetime) {e : Expense}
    → draft.amount ≡ some m
    → draft.transaction_date ≡ some t
    → Expense.create fresh (new_expense draft m t) now ≡ ok e
    → Gives draft e
unfolding Expense.create
create-Gives fresh draft now hm ht h = ground arith

pub record ConfirmedAs (draft : CaptureDraft) (caller_id expense_id : ℕ) (d : CaptureDraft)
    : Type 0 where
  pub id : d.id ≡ draft.id
  pub owner : d.owner_id ≡ caller_id
  pub state : is_confirmed d.state ≡ true
  pub expense : d.expense_id ≡ some expense_id

confirm-ConfirmedAs :
    (draft : CaptureDraft) (caller_id expense_id : ℕ) (now : Datetime) {d : CaptureDraft}
    → Lifecycle.confirm draft caller_id expense_id now ≡ ok d
    → ConfirmedAs draft caller_id expense_id d × (caller_id ≡ draft.owner_id)
unfolding Lifecycle.confirm
confirm-ConfirmedAs draft caller_id expense_id now h = ground arith

is_draft-id : (k o : ℕ) (d : CaptureDraft) → is_draft k o d ≡ true → d.id ≡ k
is_draft-id k o d h = ground arith

module _ ⦃u : Unicode⦄ ⦃z : Zones⦄ where
  -- After the first confirmation of a draft, a second one finds the draft and its expense.
  first_then_again :
      (draft_id caller_id fresh again : ℕ) (now later : Datetime) (db : Db) (draft : CaptureDraft)
      {e : Expense} {db' : Db}
      → get_draft draft_id caller_id db ≡ some draft
      → is_confirmed draft.state ≡ false
      → confirm_found draft caller_id fresh now db ≡ ok (e, db')
      → execute draft_id caller_id again later db' ≡ ok (e, db')
  unfolding get_draft get_expense
  first_then_again draft_id caller_id fresh again now later db draft {e = e} {db' = db'} found new
        h =
      let (m, t, hm, ht, h1) = first_time draft caller_id fresh now db new h in
      let (d', created, free, confirmed, writes) =
        confirm_with-eq-ok draft caller_id fresh now m t db h1 in
      let gives = create-Gives fresh draft now hm ht created in
      let (done, owner) = confirm-ConfirmedAs draft caller_id e.id now confirmed in
      let key =
        is_draft-id draft_id caller_id draft
          (find_satisfies (is_draft draft_id caller_id) db.drafts found) in
      let (row, row_found, row_state, row_expense) =
        find-write_draft draft_id caller_id d' db.drafts (done.id ∙ key) done.owner found in
      answers draft_id caller_id again e.id later db' row e (rw writes row_found)
        (rw row_state done.state) (row_expense ∙ done.expense)
        (rw writes (rw (owner ∙ sym gives.owner) (find-append_expense e db.expenses free)))
        gives.active

  -- A confirmation that succeeded, repeated at any time, returns the same expense and changes
  -- nothing: the expense, the draft and every other row stay as the first one left them.
  pub execute-execute :
      (draft_id caller_id fresh again : ℕ) (now later : Datetime) (db : Db) {e : Expense} {db' : Db}
      → execute draft_id caller_id fresh now db ≡ ok (e, db')
      → execute draft_id caller_id again later db' ≡ ok (e, db')
  execute-execute draft_id caller_id fresh again now later db {e = e} h =
      let (draft, found, h1) = execute-eq-ok draft_id caller_id fresh now db h in
      elim (Bool-cases (is_confirmed draft.state)) [
        | inl old ↦
            let (x, id, expense, active, same) = answered draft caller_id fresh now db old h1 in
            rw same
              (answers draft_id caller_id again x later db draft e found old id expense active)
        | inr new ↦ first_then_again draft_id caller_id fresh again now later db draft found new h1
      ]

  -- A first confirmation adds exactly one expense, which has the values of the draft, where the
  -- table had none with its id or of the draft, and touches no other expense, record, user or
  -- category.
  pub execute-Gives :
      (draft_id caller_id fresh : ℕ) (now : Datetime) (db : Db) (draft : CaptureDraft) {e : Expense}
      {db' : Db}
      → get_draft draft_id caller_id db ≡ some draft
      → is_confirmed draft.state ≡ false
      → execute draft_id caller_id fresh now db ≡ ok (e, db')
      → Gives draft e
        × (find (conflicts e) db.expenses ≡ none)
        × (db'.expenses ≡ db.expenses ++ e ∷ [])
        × (db'.change_records ≡ db.change_records)
        × (db'.users ≡ db.users)
        × (db'.categories ≡ db.categories)
  execute-Gives draft_id caller_id fresh now db draft {e = e} {db' = db'} found new h =
      let (other, found', h0) = execute-eq-ok draft_id caller_id fresh now db h in
      let same = some-injective other draft (sym found' ∙ found) in
      let h1 = subst (λ d. confirm_found d caller_id fresh now db ≡ ok (e, db')) same h0 in
      let (m, t, hm, ht, h2) = first_time draft caller_id fresh now db new h1 in
      let (d', created, free, confirmed, writes) =
        confirm_with-eq-ok draft caller_id fresh now m t db h2 in
      (create-Gives fresh draft now hm ht created, free, rw writes, rw writes, rw writes, rw writes)
