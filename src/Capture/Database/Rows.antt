-- ===== src/Capture/Database/Rows.antt =====
-- What the updates of the tables do to the queries.
use mathlib.Core.Option.{some-injective}
use mint_flow.Prelude.{
  ℕ, ◌≡◌, ◌≢◌, refl, ap, true, false, none, some, List, [], ◌∷◌, ◌++◌, map, find, ◌==◌, arith,
  Bool-cases, inl, inr, if◌then◌else◌,
}
use mint_flow.Capture.Database.{is_draft, write_draft, is_expense, conflicts, write_expense}
use mint_flow.Domain.Draft.{CaptureDraft}
use mint_flow.Domain.Expense.{Expense}

-- After an update of a draft, its owner finds the row with the new state and expense.
pub find-write_draft :
    (k o : ℕ) (new : CaptureDraft) (rows : List CaptureDraft) {old : CaptureDraft}
    → new.id ≡ k
    → new.owner_id ≡ o
    → find (is_draft k o) rows ≡ some old
    → (row : CaptureDraft) × (find (is_draft k o) (map (write_draft new) rows) ≡ some row)
      × (row.state ≡ new.state)
      × (row.expense_id ≡ new.expense_id)
find-write_draft k o new [] hk ho h = cc
find-write_draft k o new (r ∷ rows) {old = old} hk ho h = elim (Bool-cases (r.id == k)) [
  | inl here ↦ (
    record new { id = r.id; created_at = r.created_at; receipt_id = r.receipt_id },
    ground arith,
    refl,
    refl,
  )
  | inr there ↦
      let (row, found, state, expense) =
        find-write_draft k o new rows {old = old} hk ho (ground arith) in
      (row, ground arith, state, expense)
]

-- An expense that was added without a conflict is the one that is found by its id.
pub find-append_expense :
    (e : Expense) (rows : List Expense)
    → find (conflicts e) rows ≡ none
    → find (is_expense e.id e.owner_id) (rows ++ e ∷ []) ≡ some e
find-append_expense e [] h = ground arith
find-append_expense e (r ∷ rows) h = ground (arith, find-append_expense e rows)

write_same : (k o : ℕ) (new r : Expense) → is_expense k o (write_expense new r) ≡ is_expense k o r
write_same k o new r = ground arith

write_found :
    (k o : ℕ) (new r : Expense) (rows : List Expense) {old : Expense}
    → is_expense k o r ≡ true
    → (if true then some r else find (is_expense k o) rows) ≡ some old
    → find (is_expense k o) (map (write_expense new) (r ∷ rows)) ≡ some (write_expense new old)
write_found k o new r rows {old = old} here h =
    rw (write_same k o new r, here) (ap (λ e. some (write_expense new e)) (some-injective r old h))

write_skips :
    (k o : ℕ) (new r : Expense) (rows : List Expense) {found : Expense}
    → is_expense k o r ≡ false
    → find (is_expense k o) (map (write_expense new) rows) ≡ some found
    → find (is_expense k o) (map (write_expense new) (r ∷ rows)) ≡ some found
write_skips k o new r rows there h = rw (write_same k o new r, there) h

-- An update of an expense reaches exactly the rows with its id, and keeps every row findable.
pub find-write_expense :
    (k o : ℕ) (new : Expense) (rows : List Expense) {old : Expense}
    → find (is_expense k o) rows ≡ some old
    → find (is_expense k o) (map (write_expense new) rows) ≡ some (write_expense new old)
find-write_expense k o new [] h = cc
find-write_expense k o new (r ∷ rows) {old = old} h = elim (Bool-cases (is_expense k o r)) [
  | inl here ↦ write_found k o new r rows here (rw here at h)
  | inr there ↦
      let rest = find-write_expense k o new rows {old = old} (rw there at h) in
      write_skips k o new r rows there rest
]

pub find-write_ne :
    (k o : ℕ) (new : Expense) (rows : List Expense)
    → k ≢ new.id
    → find (is_expense k o) (map (write_expense new) rows) ≡ find (is_expense k o) rows
find-write_ne k o new [] h = refl
find-write_ne k o new (r ∷ rows) h = ground (arith, find-write_ne k o new rows h)
