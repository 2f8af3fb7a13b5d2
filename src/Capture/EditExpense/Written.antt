-- ===== src/Capture/EditExpense/Written.antt =====
-- The row of one expense in the table of expenses, of src/mintflow/infrastructure/persistence/expenses.py.
use mathlib.Core.Path.{subst}
use mathlib.Core.Option.{some-injective}
use mint_flow.Prelude.{
  ℕ, Bool, true, false, none, some, List, [], ◌∷◌, map, find, ◌≡◌, refl, ap, sym, ◌∙◌, ◌==◌, arith,
  Bool-cases, inl, inr, if◌then◌else◌,
}
use mint_flow.Capture.Database.{is_active_expense, write_expense}
use mint_flow.Domain.Expense.{Expense}

abbrev pub has_id : ℕ → Expense → Bool
has_id expense_id row = row.id == expense_id

-- the primary key of the table
abbrev pub HaveDistinctIds : List Expense → Type 0
HaveDistinctIds [] = Unit
HaveDistinctIds (e ∷ rows) = (find (has_id e.id) rows ≡ none) × HaveDistinctIds rows

-- the row of the expense is the new one, every other row is as it was
abbrev pub in_place : Expense → Expense → Expense
in_place new row = if row.id == new.id then new else row

found_fails :
    {A : Type 0} (p q : A → Bool) (rows : List A) {a : A}
    → find p rows ≡ some a
    → find q rows ≡ none
    → q a ≡ false
found_fails p q [] h k = cc
found_fails p q (r ∷ rows) {a = a} h k = elim (Bool-cases (q r)) [
  | inl e ↦ let c = rw e at k in cc
  | inr e ↦ elim (Bool-cases (p r)) [
    | inl here ↦ let s = some-injective r a (rw here at h) in rw⁻¹ s e
    | inr there ↦ found_fails p q rows (rw there at h) (rw e at k)
  ]
]

skipped :
    (new row : Expense) → (row.id == new.id) ≡ false → write_expense new row ≡ in_place new row
skipped new row e = rw e refl

cons_eq : {A : Type 0} {x y : A} {xs ys : List A} → x ≡ y → xs ≡ ys → x ∷ xs ≡ y ∷ ys
cons_eq {x = x} {ys = ys} p q = ap (λ zs. x ∷ zs) q ∙ ap (λ z. z ∷ ys) p

untouched :
    (new : Expense) (rows : List Expense)
    → find (has_id new.id) rows ≡ none
    → map (write_expense new) rows ≡ map (in_place new) rows
untouched new [] h = refl
untouched new (r ∷ rows) h = elim (Bool-cases (r.id == new.id)) [
  | inl e ↦ let c = rw e at h in cc
  | inr e ↦ cons_eq (skipped new r e) (untouched new rows (rw e at h))
]

in_place_same : (old new : Expense) → new.id ≡ old.id → in_place new old ≡ new
in_place_same old new same = rw (in_row same) refl
  where
    in_row : new.id ≡ old.id → (old.id == new.id) ≡ true
    in_row h = ground arith

differs : (k m n : ℕ) → n ≡ m → (m == k) ≡ false → (k == n) ≡ false
differs k m n p e = ground arith

-- Where a row agrees with the new one in the columns that are not written, it is the new one after.
pub map-write_expense :
    (expense_id owner_id : ℕ) (old new : Expense) (rows : List Expense)
    → HaveDistinctIds rows
    → find (is_active_expense expense_id owner_id) rows ≡ some old
    → new.id ≡ old.id
    → write_expense new old ≡ new
    → map (write_expense new) rows ≡ map (in_place new) rows
map-write_expense i o old new [] d h same whole = refl
map-write_expense i o old new (r ∷ rows) (free, d) h same whole =
    elim (Bool-cases (is_active_expense i o r)) [
      | inl here ↦
          let s : r ≡ old = some-injective r old (rw here at h) in
          let at_r : new.id ≡ r.id = same ∙ ap (λ (e : Expense). e.id) (sym s) in
          cons_eq
            (subst (λ (e : Expense). write_expense new e ≡ in_place new e) (sym s)
              (whole ∙ sym (in_place_same old new same)))
            (untouched new rows (rw at_r free))
      | inr there ↦
          let rest = rw there at h in
          let e = found_fails (is_active_expense i o) (has_id r.id) rows rest free in
          cons_eq (skipped new r (differs r.id old.id new.id same e))
            (map-write_expense i o old new rows d rest same whole)
    ]
