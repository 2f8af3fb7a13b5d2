-- ===== src/Domain/Expense.antt =====
-- src/mintflow/domain/capture/expense.py: the confirmed expense. `uuid4()` is the argument `fresh`.
pub mod Steps
use mint_flow.Prelude.{ℕ, Bool, Option, none, some, leb, is_none, if◌then◌else◌}
use mint_flow.Prelude.Text.{Text, Unicode}
use mint_flow.Prelude.Datetime.{Datetime, Instant, astimezone_utc}
use mint_flow.Prelude.Result.{Result, ok, ◌>>=◌, ◌>>◌, raise_if}
use mint_flow.Domain.Errors.{ValueError, not_positive, require_aware}
use mint_flow.Domain.Money.{Money}
use mint_flow.Domain.Values.{TransactionDate, MerchantName}
use mint_flow.Domain.Category.{require_stable_key}
use mint_flow.Domain.Draft.{CaptureSource}

-- `_require_positive`
abbrev pub require_positive : Money → Result ValueError (Unit {0})
require_positive money = raise_if (leb money.minor_units 0) not_positive

pub record Expense : Type 0 where
  pub id : ℕ
  pub owner_id : ℕ
  pub money : Money
  pub transaction_date : TransactionDate
  pub merchant : Option MerchantName
  pub category_key : Text
  pub note : Option Text
  pub source : CaptureSource
  pub capture_draft_id : ℕ
  pub receipt_id : Option ℕ
  pub created_at : Instant
  pub modified_at : Instant
  pub deleted_at : Option Instant

abbrev pub is_active : Expense → Bool
is_active e = is_none e.deleted_at

-- the keyword arguments of `create`
pub record NewExpense : Type 0 where
  pub owner_id : ℕ
  pub money : Money
  pub transaction_date : TransactionDate
  pub category_key : Text
  pub capture_draft_id : ℕ
  pub merchant : Option MerchantName
  pub note : Option Text
  pub source : CaptureSource
  pub receipt_id : Option ℕ

unfoldable pub create : ⦃u : Unicode⦄ → ℕ → NewExpense → Datetime → Result ValueError Expense
create fresh args now = do
  require_aware now
  require_positive args.money
  require_stable_key args.category_key
  let created_at = astimezone_utc now
  ok (record {
    id = fresh;
    owner_id = args.owner_id;
    money = args.money;
    transaction_date = args.transaction_date;
    merchant = args.merchant;
    category_key = args.category_key;
    note = args.note;
    source = args.source;
    capture_draft_id = args.capture_draft_id;
    receipt_id = args.receipt_id;
    created_at = created_at;
    modified_at = created_at;
    deleted_at = none;
  })

unfoldable pub edit_money : Expense → Money → Datetime → Result ValueError Expense
edit_money e money now = do
  require_aware now
  require_positive money
  ok (record e { money = money; modified_at = astimezone_utc now })

unfoldable pub edit_merchant : Expense → Option MerchantName → Datetime → Result ValueError Expense
edit_merchant e merchant now = do
  require_aware now
  ok (record e { merchant = merchant; modified_at = astimezone_utc now })

unfoldable pub edit_category : ⦃u : Unicode⦄ → Expense → Text → Datetime → Result ValueError Expense
edit_category e category_key now = do
  require_aware now
  require_stable_key category_key
  ok (record e { category_key = category_key; modified_at = astimezone_utc now })

unfoldable pub edit_note : Expense → Option Text → Datetime → Result ValueError Expense
edit_note e note now = do
  require_aware now
  ok (record e { note = note; modified_at = astimezone_utc now })

unfoldable pub edit_transaction_date :
    Expense → TransactionDate → Datetime → Result ValueError Expense
edit_transaction_date e transaction_date now = do
  require_aware now
  ok (record e { transaction_date = transaction_date; modified_at = astimezone_utc now })

unfoldable pub delete : Expense → Datetime → Result ValueError Expense
delete e now = do
  require_aware now
  let deleted_at = astimezone_utc now
  ok (
      if is_active e
      then record e { deleted_at = some deleted_at; modified_at = deleted_at }
      else e)

unfoldable pub restore : Expense → Datetime → Result ValueError Expense
restore e now = do
  require_aware now
  ok (if is_active e then e else record e { deleted_at = none; modified_at = astimezone_utc now })
