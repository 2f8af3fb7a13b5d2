-- ===== src/Capture/History.antt =====
-- src/mintflow/application/capture/expense_history.py, less its cursor codec, and `list_history` of
-- infrastructure/persistence/expenses.py: one page of the history, newest first. Of the database's
-- order of rows only ORDER BY is used.
pub mod Order
pub mod Pages
pub mod Walk
use mint_flow.Prelude.{
  ℕ, suc, ◌+◌, Bool, true, false, ◌&&◌, ◌||◌, not, Option, none, some, List, [], ◌∷◌, filter, find,
  length, take, sort_by, is_some, ltb, leb, ◌==◌, if◌then◌else◌,
}
use mint_flow.Prelude.Datetime.{Instant}
use mint_flow.Prelude.Result.{Result, ok, err, ◌>>◌, require, raise_if}
use mint_flow.Prelude.Text.{Text, text_eq}
use mint_flow.Calendar.{Date, date_lt, date_le, date_eq}
use mint_flow.Capture.Database.{Db}
use mint_flow.Domain.Expense
use mint_flow.Domain.Expense.{Expense}
use mint_flow.Domain.Money.{CurrencyCode, currency_eq}

pub data HistoryError : Type 0 where
  bad_limit dates_reversed : HistoryError

abbrev pub max_history_page_size : ℕ
max_history_page_size = 100

-- Its time is an instant, which is aware.
pub record ExpenseHistoryPosition : Type 0 where
  pub transaction_date : Date
  pub created_at : Instant
  pub expense_id : ℕ

-- `ExpenseHistoryPosition.after`
unfoldable pub after : Expense → ExpenseHistoryPosition
after e = record {
  transaction_date = e.transaction_date.value;
  created_at = e.created_at;
  expense_id = e.id;
}

-- an empty set of categories or currencies means any
pub record ExpenseHistoryFilter : Type 0 where
  pub date_from : Option Date
  pub date_to : Option Date
  pub category_keys : List Text
  pub currencies : List CurrencyCode

abbrev reversed : Option Date → Option Date → Bool
unfolding date_lt
reversed (some from) (some to) = date_lt to from
reversed _ _ = false

-- `ExpenseHistoryFilter(…)`
unfoldable pub make_filter : ExpenseHistoryFilter → Result HistoryError ExpenseHistoryFilter
unfolding reversed
make_filter f = do raise_if (reversed f.date_from f.date_to) dates_reversed; ok f

pub record ExpenseHistoryPage : Type 0 where
  pub items : List Expense
  pub next_position : Option ExpenseHistoryPosition

-- `<` on (transaction_date, created_at, id)
unfoldable pub key_lt : ExpenseHistoryPosition → ExpenseHistoryPosition → Bool
unfolding date_lt date_eq
key_lt a b =
    date_lt a.transaction_date b.transaction_date
    || (date_eq a.transaction_date b.transaction_date
        && (ltb a.created_at b.created_at
            || (a.created_at == b.created_at && ltb a.expense_id b.expense_id)))

abbrev from_matches : Option Date → Date → Bool
unfolding date_lt
from_matches none d = true
from_matches (some from) d = date_le from d

abbrev to_matches : Option Date → Date → Bool
unfolding date_lt
to_matches none d = true
to_matches (some to) d = date_le d to

abbrev category_matches : List Text → Text → Bool
unfolding text_eq
category_matches [] key = true
category_matches (k ∷ ks) key = is_some (find (text_eq key) (k ∷ ks))

abbrev currency_matches : List CurrencyCode → CurrencyCode → Bool
unfolding currency_eq
currency_matches [] currency = true
currency_matches (c ∷ cs) currency = is_some (find (currency_eq currency) (c ∷ cs))

-- the conditions of the statement, but for the position
unfoldable pub is_listed : ℕ → ExpenseHistoryFilter → Expense → Bool
unfolding from_matches to_matches category_matches currency_matches
is_listed owner_id f e =
    (e.owner_id == owner_id && Expense.is_active e)
    && (from_matches f.date_from e.transaction_date.value
        && (to_matches f.date_to e.transaction_date.value
            && (category_matches f.category_keys e.category_key
                && currency_matches f.currencies e.money.currency)))

unfoldable pub is_after : Option ExpenseHistoryPosition → Expense → Bool
unfolding key_lt after
is_after none e = true
is_after (some position) e = key_lt (after e) position

-- ORDER BY the key, descending
unfoldable pub newer : Expense → Expense → Bool
unfolding key_lt after
newer a b = key_lt (after b) (after a)

abbrev last_of : Expense → List Expense → Expense
last_of e [] = e
last_of e (f ∷ rest) = last_of f rest

-- `ExpenseHistoryPosition.after(items[-1])`; a page that has a next one is not empty
abbrev pub next_of : List Expense → Option ExpenseHistoryPosition
unfolding after
next_of [] = none
next_of (e ∷ rest) = some (after (last_of e rest))

unfoldable pub page_of : ℕ → List Expense → ExpenseHistoryPage
unfolding next_of
page_of limit records =
    let items = take limit records in
    record {
      items = items;
      next_position = if ltb limit (length records) then next_of items else none;
    }

-- the rows of the statement without its limit
unfoldable pub history :
    Db → ℕ → ExpenseHistoryFilter → Option ExpenseHistoryPosition → List Expense
unfolding sort_by newer is_listed is_after
history db owner_id f position =
    sort_by newer (filter (is_after position) (filter (is_listed owner_id f) db.expenses))

unfoldable pub list_history :
    Db
    → ℕ
    → ExpenseHistoryFilter
    → ℕ
    → Option ExpenseHistoryPosition
    → Result HistoryError ExpenseHistoryPage
unfolding history page_of
list_history db owner_id f limit position = do
  require (leb 1 limit && leb limit max_history_page_size) bad_limit
  ok (page_of limit (take (limit + 1) (history db owner_id f position)))
