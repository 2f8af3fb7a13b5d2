-- ===== src/Capture/EditExpense/Applied.antt =====
-- What `EditExpense.execute` does to an expense.
use mint_flow.Prelude.{ℕ, ◌≡◌, ◌∙◌, ap, Option, arith}
use mint_flow.Prelude.Datetime.{Datetime, Instant, astimezone_utc}
use mint_flow.Prelude.Result.{ok}
use mint_flow.Prelude.Text.{Text, Unicode}
use mint_flow.Capture.Database.{Db, ◌>>=◌}
use mint_flow.Capture.Database.Tx.{ok_of_tx}
use mint_flow.Capture.EditExpense.{
  Supplied, unchanged, supplied, ExpenseEdit, apply_money, apply_date, apply_merchant,
  apply_category, apply_note, apply, require_acceptable_date, require_active_category,
}
use mint_flow.Domain.Expense
use mint_flow.Domain.Expense.{Expense}
use mint_flow.Domain.Money.{Money}
use mint_flow.Domain.User.Preferences.{Zones}
use mint_flow.Domain.Values.{TransactionDate, MerchantName}

-- the supplied value, or the one that there was
abbrev pub chosen : {A : Type 0} → Supplied A → A → A
chosen unchanged old = old
chosen (supplied new) old = new

-- what a supplied value makes of the time of modification
abbrev modified_by : {A : Type 0} → Supplied A → Instant → Instant → Instant
modified_by unchanged t old = old
modified_by (supplied new) t old = t

-- the expense with the supplied values, modified at `t` if there is one
abbrev pub with_edit : ExpenseEdit → Instant → Expense → Expense
with_edit edit t e = record e {
  money = chosen edit.money e.money;
  transaction_date = chosen edit.transaction_date e.transaction_date;
  merchant = chosen edit.merchant e.merchant;
  category_key = chosen edit.category_key e.category_key;
  note = chosen edit.note e.note;
  modified_at = modified_by edit.note t (
      modified_by edit.category_key t (
        modified_by edit.merchant t
          (modified_by edit.transaction_date t (modified_by edit.money t e.modified_at))));
}

module _ ⦃u : Unicode⦄ ⦃z : Zones⦄ where
  after_money :
      (s : Supplied Money) (now : Datetime) (e : Expense) (db : Db) {f : Expense} {db' : Db}
      → apply_money s now e db ≡ ok (f, db')
      → (f ≡ record e {
        money = chosen s e.money;
        modified_at = modified_by s (astimezone_utc now) e.modified_at;
      })
        × (db' ≡ db)
  unfolding Expense.edit_money
  after_money unchanged now e db h = ground arith
  after_money (supplied m) now e db h = ground arith

  after_date :
      (s : Supplied TransactionDate) (c : ℕ) (now : Datetime) (e : Expense) (db : Db) {f : Expense}
      {db' : Db}
      → apply_date s c now e db ≡ ok (f, db')
      → (f ≡ record e {
        transaction_date = chosen s e.transaction_date;
        modified_at = modified_by s (astimezone_utc now) e.modified_at;
      })
        × (db' ≡ db)
  unfolding ◌>>=◌ Expense.edit_transaction_date require_acceptable_date
  after_date unchanged c now e db h = ground arith
  after_date (supplied d) c now e db h = ground arith

  after_merchant :
      (s : Supplied (Option MerchantName)) (now : Datetime) (e : Expense) (db : Db) {f : Expense}
      {db' : Db}
      → apply_merchant s now e db ≡ ok (f, db')
      → (f ≡ record e {
        merchant = chosen s e.merchant;
        modified_at = modified_by s (astimezone_utc now) e.modified_at;
      })
        × (db' ≡ db)
  unfolding Expense.edit_merchant
  after_merchant unchanged now e db h = ground arith
  after_merchant (supplied m) now e db h = ground arith

  after_category :
      (s : Supplied Text) (now : Datetime) (e : Expense) (db : Db) {f : Expense} {db' : Db}
      → apply_category s now e db ≡ ok (f, db')
      → (f ≡ record e {
        category_key = chosen s e.category_key;
        modified_at = modified_by s (astimezone_utc now) e.modified_at;
      })
        × (db' ≡ db)
  unfolding ◌>>=◌ Expense.edit_category require_active_category
  after_category unchanged now e db h = ground arith
  after_category (supplied k) now e db h = ground arith

  after_note :
      (s : Supplied (Option Text)) (now : Datetime) (e : Expense) (db : Db) {f : Expense} {db' : Db}
      → apply_note s now e db ≡ ok (f, db')
      → (f ≡ record e {
        note = chosen s e.note;
        modified_at = modified_by s (astimezone_utc now) e.modified_at;
      })
        × (db' ≡ db)
  unfolding Expense.edit_note
  after_note unchanged now e db h = ground arith
  after_note (supplied n) now e db h = ground arith

  pub after_apply :
      (e : Expense) (edit : ExpenseEdit) (c : ℕ) (now : Datetime) (db : Db) {f : Expense} {db' : Db}
      → apply e edit c now db ≡ ok (f, db')
      → (f ≡ with_edit edit (astimezone_utc now) e) × (db' ≡ db)
  unfolding apply
  after_apply e edit c now db {f = f} h =
      let (e1, db1, p1, h1) = ok_of_tx _ _ h in
      let (e2, db2, p2, h2) = ok_of_tx _ _ h1 in
      let (e3, db3, p3, h3) = ok_of_tx _ _ h2 in
      let (e4, db4, p4, h4) = ok_of_tx _ _ h3 in
      let (q1, d1) = after_money edit.money now e db p1 in
      let (q2, d2) = after_date edit.transaction_date c now e1 db1 p2 in
      let (q3, d3) = after_merchant edit.merchant now e2 db2 p3 in
      let (q4, d4) = after_category edit.category_key now e3 db3 p4 in
      let (q5, d5) = after_note edit.note now e4 db4 h4 in
      let r2 =
        q2
        ∙ ap
            (λ (x : Expense). record x {
              transaction_date = chosen edit.transaction_date x.transaction_date;
              modified_at = modified_by edit.transaction_date (astimezone_utc now) x.modified_at;
            })
            q1 in
      let r3 =
        q3
        ∙ ap
            (λ (x : Expense). record x {
              merchant = chosen edit.merchant x.merchant;
              modified_at = modified_by edit.merchant (astimezone_utc now) x.modified_at;
            })
            r2 in
      let r4 =
        q4
        ∙ ap
            (λ (x : Expense). record x {
              category_key = chosen edit.category_key x.category_key;
              modified_at = modified_by edit.category_key (astimezone_utc now) x.modified_at;
            })
            r3 in
      let r5 =
        q5
        ∙ ap
            (λ (x : Expense). record x {
              note = chosen edit.note x.note;
              modified_at = modified_by edit.note (astimezone_utc now) x.modified_at;
            })
            r4 in
      (r5, d5 ∙ d4 ∙ d3 ∙ d2 ∙ d1)
