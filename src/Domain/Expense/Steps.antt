-- ===== src/Domain/Expense/Steps.antt =====
-- What the methods of src/mintflow/domain/capture/expense.py keep: a step relation with one
-- constructor for each, an invariant, and the fields that no method changes.
use mint_flow.Prelude.{ℕ, ◌<◌, ◌≡◌, true, false, Option, arith}
use mint_flow.Prelude.Datetime.{Datetime, is_aware, astimezone_utc}
use mint_flow.Prelude.Result.{ok}
use mint_flow.Prelude.Text.{Text, Unicode}
use mint_flow.Domain.Category.{require_stable_key}
use mint_flow.Domain.Money.{Money}
use mint_flow.Domain.Values.{TransactionDate, MerchantName}
use mint_flow.Domain.Expense
use mint_flow.Domain.Expense.{Expense, NewExpense}

pub data Step ⦃u : Unicode⦄ (e : Expense) : Expense → Type 0 where
  edit_money :
      {f : Expense} (money : Money) (now : Datetime)
      → Expense.edit_money e money now ≡ ok f
      → Step e f
  edit_merchant :
      {f : Expense} (merchant : Option MerchantName) (now : Datetime)
      → Expense.edit_merchant e merchant now ≡ ok f
      → Step e f
  edit_category :
      {f : Expense} (key : Text) (now : Datetime)
      → Expense.edit_category e key now ≡ ok f
      → Step e f
  edit_note :
      {f : Expense} (note : Option Text) (now : Datetime)
      → Expense.edit_note e note now ≡ ok f
      → Step e f
  edit_transaction_date :
      {f : Expense} (date : TransactionDate) (now : Datetime)
      → Expense.edit_transaction_date e date now ≡ ok f
      → Step e f
  delete : {f : Expense} (now : Datetime) → Expense.delete e now ≡ ok f → Step e f
  restore : {f : Expense} (now : Datetime) → Expense.restore e now ≡ ok f → Step e f

pub data Reach ⦃u : Unicode⦄ (e : Expense) : Expense → Type 0 where
  here : Reach e e
  next : {f g : Expense} → Reach e f → Step f g → Reach e g

-- The amount is strictly positive, and the category key passes the check for stable keys.
pub record IsValid ⦃u : Unicode⦄ (e : Expense) : Type 0 where
  pub positive : 0 < e.money.minor_units
  pub stable : require_stable_key e.category_key ≡ ok tt

-- what no method changes
pub record SameExpense (e f : Expense) : Type 0 where
  pub id : f.id ≡ e.id
  pub owner : f.owner_id ≡ e.owner_id
  pub source : f.source ≡ e.source
  pub draft : f.capture_draft_id ≡ e.capture_draft_id
  pub receipt : f.receipt_id ≡ e.receipt_id
  pub created : f.created_at ≡ e.created_at

module _ ⦃u : Unicode⦄ where
  create-IsValid :
      (fresh : ℕ) (args : NewExpense) (now : Datetime) {e : Expense}
      → Expense.create fresh args now ≡ ok e
      → IsValid e
  unfolding Expense.create
  create-IsValid fresh args now h = ground arith

  Step-IsValid : {e f : Expense} → Step e f → IsValid e → IsValid f
  unfolding Expense.edit_money Expense.edit_merchant Expense.edit_category Expense.edit_note
      Expense.edit_transaction_date Expense.delete Expense.restore
  Step-IsValid (Step.edit_money money now p) h = ground arith
  Step-IsValid (Step.edit_merchant merchant now p) h = ground arith
  Step-IsValid (Step.edit_category key now p) h = ground arith
  Step-IsValid (Step.edit_note text now p) h = ground arith
  Step-IsValid (Step.edit_transaction_date date now p) h = ground arith
  Step-IsValid (Step.delete now p) h = ground arith
  Step-IsValid (Step.restore now p) h = ground arith

  Step-SameExpense : {e f : Expense} → Step e f → SameExpense e f
  unfolding Expense.edit_money Expense.edit_merchant Expense.edit_category Expense.edit_note
      Expense.edit_transaction_date Expense.delete Expense.restore
  Step-SameExpense (Step.edit_money money now p) = ground arith
  Step-SameExpense (Step.edit_merchant merchant now p) = ground arith
  Step-SameExpense (Step.edit_category key now p) = ground arith
  Step-SameExpense (Step.edit_note text now p) = ground arith
  Step-SameExpense (Step.edit_transaction_date date now p) = ground arith
  Step-SameExpense (Step.delete now p) = ground arith
  Step-SameExpense (Step.restore now p) = ground arith

  Reach-IsValid : {e f : Expense} → Reach e f → IsValid e → IsValid f
  Reach-IsValid here h = h
  Reach-IsValid (next r st) h = Step-IsValid st (Reach-IsValid r h)

  -- An expense that was created keeps a positive amount and a stable category key through any
  -- edits, deletions and restorations that succeed.
  pub created-IsValid :
      (fresh : ℕ) (args : NewExpense) (now : Datetime) {e f : Expense}
      → Expense.create fresh args now ≡ ok e
      → Reach e f
      → IsValid f
  created-IsValid fresh args now h r = Reach-IsValid r (create-IsValid fresh args now h)

  -- Whatever succeeds on it, an expense keeps its id, owner, source, draft, receipt and the time
  -- it was created.
  pub Reach-SameExpense : {e f : Expense} → Reach e f → SameExpense e f
  Reach-SameExpense here = ground arith
  Reach-SameExpense (next r st) = ground (arith, Reach-SameExpense r, Step-SameExpense st)

-- Restoring an active expense that was deleted gives it back, but for the time of the change.
pub restore-delete :
    (e : Expense) {f : Expense} (now later : Datetime)
    → Expense.is_active e ≡ true
    → is_aware later ≡ true
    → Expense.delete e now ≡ ok f
    → (Expense.is_active f ≡ false)
      × (Expense.restore f later ≡ ok (record e { modified_at = astimezone_utc later }))
unfolding Expense.delete Expense.restore
restore-delete e now later active aware h = ground arith
