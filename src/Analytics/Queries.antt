-- ===== src/Analytics/Queries.antt =====
-- src/mintflow/infrastructure/persistence/analytics.py: the aggregates, grouped and ordered as the
-- statements say. How the database orders texts is a parameter.
pub mod Groups
pub mod Totals
pub mod Selected
pub mod Rows
use mint_flow.Prelude.{
  ℕ, zero, suc, ◌+◌, ◌==◌, Bool, true, false, ◌&&◌, ◌||◌, not, Option, none, some, List, [], ◌∷◌,
  map, filter, find, sort_by, ltb, if◌then◌else◌,
}
use mint_flow.Prelude.Text.{Text, text_eq}
use mint_flow.Calendar.{Date, date_lt, date_eq}
use mint_flow.Analytics.Aggregates.{
  CurrencyTotal, DailyTotal, CategoryTotal, MerchantTotal, AnalyticsRepository,
}
use mint_flow.Analytics.Periods.{DashboardPeriod}
use mint_flow.Analytics.Periods.Tiling.{inside}
use mint_flow.Capture.Database.{Db}
use mint_flow.Domain.Category.{Category}
use mint_flow.Domain.Expense
use mint_flow.Domain.Expense.{Expense}
use mint_flow.Domain.Money.{CurrencyCode, currency_eq, currency_value}

pub record Collation : Type 0 where
  pub before : Text → Text → Bool

abbrev pub has_currency : Option CurrencyCode → Expense → Bool
unfolding currency_eq
has_currency none e = true
has_currency (some currency) e = currency_eq e.money.currency currency

-- `select_active_expenses` and the conditions of `_active_in`
abbrev pub is_active_in : ℕ → DashboardPeriod → Option CurrencyCode → Expense → Bool
unfolding inside has_currency
is_active_in owner_id period currency e =
    e.owner_id == owner_id
    && (Expense.is_active e && (inside period e.transaction_date.value && has_currency currency e))

unfoldable pub active_in : Db → ℕ → DashboardPeriod → Option CurrencyCode → List Expense
unfolding is_active_in
active_in db owner_id period currency = filter (is_active_in owner_id period currency) db.expenses

pub record Group (K : Type 0) : Type 0 where
  pub key : K
  pub total : ℕ
  pub count : ℕ

module _ {K : Type 0} (same : K → K → Bool) where
  unfoldable pub tally : K → ℕ → List (Group K) → List (Group K)
  tally key amount [] = record { key = key; total = amount; count = 1 } ∷ []
  tally key amount (group ∷ groups) =
      let rest = tally key amount groups in
      if same group.key key
      then record group { total = group.total + amount; count = group.count + 1 } ∷ groups
      else group ∷ rest

  -- GROUP BY the key, with SUM of the amounts and COUNT
  unfoldable pub group_by : (Expense → K) → List Expense → List (Group K)
  unfolding tally
  group_by key_of [] = []
  group_by key_of (e ∷ es) = tally (key_of e) e.money.minor_units (group_by key_of es)

abbrev pub of_currency : Group CurrencyCode → CurrencyTotal
of_currency g = record { currency = g.key; total_minor_units = g.total; count = g.count }

abbrev pub DayKey : Type 0
DayKey = CurrencyCode × Date

abbrev pub same_day : DayKey → DayKey → Bool
unfolding currency_eq date_eq
same_day a b = currency_eq a.0 b.0 && date_eq a.1 b.1

abbrev pub of_day : Group DayKey → DailyTotal
of_day g = record {
  currency = g.key.0;
  transaction_date = g.key.1;
  total_minor_units = g.total;
  count = g.count;
}

pub record CategoryKey : Type 0 where
  pub currency : CurrencyCode
  pub category_key : Text
  pub name : Text

abbrev pub same_category : CategoryKey → CategoryKey → Bool
unfolding currency_eq text_eq
same_category a b =
    currency_eq a.currency b.currency
    && (text_eq a.category_key b.category_key && text_eq a.name b.name)

abbrev pub of_category : Group CategoryKey → CategoryTotal
of_category g = record {
  currency = g.key.currency;
  category_key = g.key.category_key;
  category_name = g.key.name;
  total_minor_units = g.total;
  count = g.count;
}

abbrev pub MerchantKey : Type 0
MerchantKey = CurrencyCode × Option Text

abbrev same_name : Option Text → Option Text → Bool
unfolding text_eq
same_name none none = true
same_name (some a) (some b) = text_eq a b
same_name _ _ = false

abbrev pub same_merchant : MerchantKey → MerchantKey → Bool
unfolding currency_eq same_name
same_merchant a b = currency_eq a.0 b.0 && same_name a.1 b.1

abbrev pub of_merchant : Group MerchantKey → MerchantTotal
of_merchant g = record {
  currency = g.key.0;
  merchant = g.key.1;
  total_minor_units = g.total;
  count = g.count;
}

-- the name of a category by its key, which is unique
abbrev pub category_of : Db → Text → Option Category
unfolding text_eq
category_of db key = find (λ (c : Category). text_eq c.key key) db.categories

-- the rows that the join keeps
abbrev pub joins : Db → Expense → Bool
unfolding category_of
joins db e = elim (category_of db e.category_key) [ none ↦ false | some _ ↦ true ]

abbrev pub name_of : Option Category → Text
name_of none = []
name_of (some c) = c.name

abbrev pub category_key_of : Db → Expense → CategoryKey
unfolding category_of
category_key_of db e = record {
  currency = e.money.currency;
  category_key = e.category_key;
  name = name_of (category_of db e.category_key);
}

abbrev pub merchant_key_of : Expense → MerchantKey
merchant_key_of e = (e.money.currency, elim e.merchant [ none ↦ none | some m ↦ some m.value ])

module _ ⦃collation : Collation⦄ where
  -- the later order terms, where the earlier are equal
  abbrev code_before : CurrencyCode → CurrencyCode → Bool
  unfolding currency_value
  code_before a b = collation.before (currency_value a) (currency_value b)

  abbrev name_before : Option Text → Option Text → Bool
  name_before none _ = false
  name_before (some a) none = true
  name_before (some a) (some b) = collation.before a b

  abbrev pub currency_order : CurrencyTotal → CurrencyTotal → Bool
  unfolding code_before
  currency_order a b =
      ltb b.total_minor_units a.total_minor_units
      || (a.total_minor_units == b.total_minor_units && code_before a.currency b.currency)

  abbrev pub daily_order : DailyTotal → DailyTotal → Bool
  unfolding code_before date_lt date_eq
  daily_order a b =
      date_lt a.transaction_date b.transaction_date
      || (date_eq a.transaction_date b.transaction_date && code_before a.currency b.currency)

  abbrev pub category_order : CategoryTotal → CategoryTotal → Bool
  unfolding code_before text_eq
  category_order a b =
      ltb b.total_minor_units a.total_minor_units
      || (a.total_minor_units == b.total_minor_units
          && (collation.before a.category_key b.category_key
              || (text_eq a.category_key b.category_key && code_before a.currency b.currency)))

  abbrev pub merchant_order : MerchantTotal → MerchantTotal → Bool
  unfolding code_before same_name
  merchant_order a b =
      ltb b.total_minor_units a.total_minor_units
      || (a.total_minor_units == b.total_minor_units
          && (name_before a.merchant b.merchant
              || (same_name a.merchant b.merchant && code_before a.currency b.currency)))

  unfoldable pub currency_totals : Db → ℕ → DashboardPeriod → List CurrencyTotal
  unfolding active_in group_by currency_eq currency_order
  currency_totals db owner_id period = sort_by currency_order (
      map of_currency
        (group_by currency_eq (λ e. e.money.currency) (active_in db owner_id period none)))

  unfoldable pub daily_totals : Db → ℕ → DashboardPeriod → Option CurrencyCode → List DailyTotal
  unfolding active_in group_by same_day daily_order
  daily_totals db owner_id period currency = sort_by daily_order (
      map of_day (
        group_by same_day (λ e. (e.money.currency, e.transaction_date.value))
          (active_in db owner_id period currency)))

  unfoldable pub category_totals :
      Db → ℕ → DashboardPeriod → Option CurrencyCode → List CategoryTotal
  unfolding active_in group_by same_category category_order category_key_of joins
  category_totals db owner_id period currency = sort_by category_order (
      map of_category (
        group_by same_category (category_key_of db)
          (filter (joins db) (active_in db owner_id period currency))))

  unfoldable pub merchant_totals :
      Db → ℕ → DashboardPeriod → Option CurrencyCode → List MerchantTotal
  unfolding active_in group_by same_merchant merchant_order
  merchant_totals db owner_id period currency = sort_by merchant_order (
      map of_merchant
        (group_by same_merchant merchant_key_of (active_in db owner_id period currency)))

-- ORDER BY amount, date, creation and id, all descending
abbrev pub larger : Expense → Expense → Bool
unfolding date_lt date_eq
larger a b =
    ltb b.money.minor_units a.money.minor_units
    || (a.money.minor_units == b.money.minor_units
        && (date_lt b.transaction_date.value a.transaction_date.value
            || (date_eq a.transaction_date.value b.transaction_date.value
                && (ltb b.created_at a.created_at
                    || (a.created_at == b.created_at && ltb b.id a.id)))))

abbrev first_row : List Expense → Option Expense
first_row [] = none
first_row (e ∷ _) = some e

unfoldable pub largest_expense : Db → ℕ → DashboardPeriod → CurrencyCode → Option Expense
unfolding active_in larger
largest_expense db owner_id period currency =
    first_row (sort_by larger (active_in db owner_id period (some currency)))

-- `SqlAlchemyAnalyticsRepository`
unfoldable pub sql_analytics : ⦃collation : Collation⦄ → Db → AnalyticsRepository
unfolding currency_totals daily_totals category_totals merchant_totals largest_expense
sql_analytics db = record {
  currency_totals = currency_totals db;
  daily_totals = daily_totals db;
  category_totals = category_totals db;
  merchant_totals = merchant_totals db;
  largest_expense = largest_expense db;
}
