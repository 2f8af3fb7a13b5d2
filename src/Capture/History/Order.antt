-- ===== src/Capture/History/Order.antt =====
-- The order of the history is a strict order of rows with different ids.
use mint_flow.Prelude.{◌≡◌, arith, true, false, ◌==◌, IsOrder, Bool-cases, inl, inr}
use mint_flow.Calendar.{Date, date_lt, date_eq}
use mint_flow.Capture.History.{ExpenseHistoryPosition, after, key_lt, newer}
use mint_flow.Domain.Expense.{Expense}

date_lt_asym : (a b : Date) → date_lt a b ≡ true → date_lt b a ≡ false
unfolding date_lt
date_lt_asym a b h = ground arith

date_lt_apart : (a b : Date) → date_lt a b ≡ true → date_eq b a ≡ false
unfolding date_lt date_eq
date_lt_apart a b h = ground arith

date_lt_total : (a b : Date) → date_lt a b ≡ false → date_eq a b ≡ false → date_lt b a ≡ true
unfolding date_lt date_eq
date_lt_total a b h k = ground arith

date_lt_trans : (a b c : Date) → date_lt b a ≡ false → date_lt c b ≡ false → date_lt c a ≡ false
unfolding date_lt
date_lt_trans a b c h k = ground arith

-- between two equal dates there are only equal ones
date_eq_between :
    (a b c : Date)
    → date_lt b a ≡ false
    → date_lt c b ≡ false
    → date_eq c a ≡ true
    → (date_eq b a ≡ true) × (date_eq c b ≡ true)
unfolding date_lt date_eq
date_eq_between a b c h k e = (ground arith, ground arith)

date_eq_swap : (a b : Date) → date_eq a b ≡ true → date_eq b a ≡ true
unfolding date_eq
date_eq_swap a b h = ground arith

key_lt_asym : (a b : ExpenseHistoryPosition) → key_lt a b ≡ true → key_lt b a ≡ false
unfolding key_lt
key_lt_asym a b h = ground (
  arith,
  date_lt_asym a.transaction_date b.transaction_date,
  date_lt_apart a.transaction_date b.transaction_date,
)

key_lt_trans :
    (a b c : ExpenseHistoryPosition) → key_lt b a ≡ false → key_lt c b ≡ false → key_lt c a ≡ false
unfolding key_lt
key_lt_trans a b c h k =
    let d = date_lt_trans a.transaction_date b.transaction_date c.transaction_date in
    let e = date_eq_between a.transaction_date b.transaction_date c.transaction_date in ground arith

key_lt_total :
    (a b : ExpenseHistoryPosition)
    → key_lt a b ≡ false
    → (a.expense_id == b.expense_id) ≡ false
    → key_lt b a ≡ true
unfolding key_lt
key_lt_total a b h k =
    let t = date_lt_total a.transaction_date b.transaction_date in
    let s = date_eq_swap a.transaction_date b.transaction_date in ground arith

pub newer-IsOrder : IsOrder newer
unfolding newer
newer-IsOrder = record {
  asym = λ a b h. key_lt_asym (after b) (after a) h;
  trans = λ a b c h k. key_lt_trans (after c) (after b) (after a) k h;
}

-- of two rows with different ids the one is newer that the other is not newer than
pub newer_total : (a b : Expense) → newer a b ≡ false → (b.id == a.id) ≡ false → newer b a ≡ true
unfolding newer after
newer_total a b h k = key_lt_total (after b) (after a) h k

pub newer_irrefl : (e : Expense) → newer e e ≡ false
newer_irrefl e = elim (Bool-cases (newer e e)) [ inl h ↦ newer-IsOrder.asym e e h | inr h ↦ h ]
