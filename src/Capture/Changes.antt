-- ===== src/Capture/Changes.antt =====
-- src/mintflow/application/capture/expense_changes.py: the change records of expenses.
use mint_flow.Prelude.{
  ℕ, ◌+◌, ◌/◌, ◌%◌, Bool, true, false, Option, none, some, List, [], ◌∷◌, ◌==◌, if◌then◌else◌,
}
use mint_flow.Prelude.Datetime.{Datetime, Instant, astimezone_utc}
use mint_flow.Prelude.Result.{Result, ok, ◌>>◌, require, raise_if}
use mint_flow.Prelude.Text.{Text, text_eq}
use mint_flow.Calendar.{Date}
use mint_flow.Domain.Errors.{
  ValueError, require_aware, bad_change, no_changes, repeated_field, unexpected_changes,
}
use mint_flow.Domain.Expense.{Expense}
use mint_flow.Domain.Money.{currency_value}
use mint_flow.Domain.Values.{MerchantName}

-- `str | int | None`
pub data FieldValue : Type 0 where
  str : Text → FieldValue
  int : ℕ → FieldValue
  null : FieldValue

-- `==` on field values
unfoldable pub value_eq : FieldValue → FieldValue → Bool
unfolding text_eq
value_eq (str s) (str t) = text_eq s t
value_eq (int m) (int n) = m == n
value_eq null null = true
value_eq _ _ = false

pub data ExpenseChangeType : Type 0 where
  edited deleted restored : ExpenseChangeType

pub data ExpenseField : Type 0 where
  amount_minor_units currency transaction_date merchant category_key note : ExpenseField

-- the order of the enumeration, which tells its members apart
abbrev pub place : ExpenseField → ℕ
place amount_minor_units = 0
place currency = 1
place transaction_date = 2
place merchant = 3
place category_key = 4
place note = 5

abbrev pub all_fields : List ExpenseField
all_fields = amount_minor_units ∷ currency ∷ transaction_date ∷ merchant ∷ category_key ∷ note ∷ []

abbrev digit : ℕ → ℕ
digit n = b'0' + n % 10

-- `date.isoformat()`, for years of at most four digits
unfoldable pub isoformat : Date → Text
isoformat d =
    digit (d.year / 1000)
    ∷ digit (d.year / 100)
    ∷ digit (d.year / 10)
    ∷ digit d.year
    ∷ b'-'
    ∷ digit (d.month / 10)
    ∷ digit d.month
    ∷ b'-'
    ∷ digit (d.day / 10)
    ∷ digit d.day
    ∷ []

abbrev merchant_value : Option MerchantName → FieldValue
merchant_value none = null
merchant_value (some m) = str m.value

abbrev note_value : Option Text → FieldValue
note_value none = null
note_value (some n) = str n

-- `expense_field_values(expense)[field]`
unfoldable pub expense_field_value : Expense → ExpenseField → FieldValue
unfolding isoformat currency_value
expense_field_value e amount_minor_units = int e.money.minor_units
expense_field_value e currency = str (currency_value e.money.currency)
expense_field_value e transaction_date = str (isoformat e.transaction_date.value)
expense_field_value e merchant = merchant_value e.merchant
expense_field_value e category_key = str e.category_key
expense_field_value e note = note_value e.note

pub record ExpenseFieldChange : Type 0 where
  pub field : ExpenseField
  pub old : FieldValue
  pub new : FieldValue

-- `_check_value`
unfoldable pub check_value : ExpenseField → FieldValue → Bool
check_value merchant null = true
check_value note null = true
check_value _ null = false
check_value amount_minor_units (int n) = true
check_value amount_minor_units _ = false
check_value _ (str s) = true
check_value _ (int n) = false

-- `ExpenseFieldChange(field, old, new)`
unfoldable pub make_change :
    ExpenseField → FieldValue → FieldValue → Result ValueError ExpenseFieldChange
unfolding check_value value_eq
make_change field old new = do
  require (check_value field old) bad_change
  require (check_value field new) bad_change
  raise_if (value_eq old new) bad_change
  ok (record { field = field; old = old; new = new })

pub record ExpenseChangeRecord : Type 0 where
  pub id : ℕ
  pub expense_id : ℕ
  pub actor_user_id : ℕ
  pub occurred_at : Instant
  pub change_type : ExpenseChangeType
  pub changes : List ExpenseFieldChange

abbrev is_empty : List ExpenseFieldChange → Bool
is_empty [] = true
is_empty (_ ∷ _) = false

abbrev mentions : ExpenseField → List ExpenseFieldChange → Bool
mentions f [] = false
mentions f (c ∷ cs) = if place f == place c.field then true else mentions f cs

abbrev has_repeats : List ExpenseFieldChange → Bool
has_repeats [] = false
has_repeats (c ∷ cs) = if mentions c.field cs then true else has_repeats cs

abbrev check_changes : ExpenseChangeType → List ExpenseFieldChange → Result ValueError (Unit {0})
check_changes edited changes = do
  raise_if (is_empty changes) no_changes
  raise_if (has_repeats changes) repeated_field
check_changes _ changes = require (is_empty changes) unexpected_changes

-- `ExpenseChangeRecord(…)`, with its default id drawn by `uuid4`
unfoldable pub make_record :
    ℕ
    → ℕ
    → ℕ
    → Datetime
    → ExpenseChangeType
    → List ExpenseFieldChange
    → Result ValueError ExpenseChangeRecord
make_record fresh expense_id actor occurred_at change_type changes = do
  require_aware occurred_at
  check_changes change_type changes
  ok (record {
    id = fresh;
    expense_id = expense_id;
    actor_user_id = actor;
    occurred_at = astimezone_utc occurred_at;
    change_type = change_type;
    changes = changes;
  })
