-- ===== src/Analytics/Queries/Totals.antt =====
-- The aggregates are sums over the active expenses of the period.
use mint_flow.Prelude.{
  ℕ, ◌+◌, ◌≤◌, ◌≡◌, refl, ◌∙◌, ap, arith, inl, inr, Bool, true, false, ◌&&◌, Bool-cases, none, some,
  List, [], ◌∷◌, filter, filter-filter, sum_of, if◌then◌else◌, ◌==◌,
}
use mint_flow.Analytics.Periods.{DashboardPeriod}
use mint_flow.Analytics.Periods.Tiling.{inside}
use mint_flow.Analytics.Queries.{Group, tally, group_by, is_active_in, active_in}
use mint_flow.Analytics.Queries.Groups.{amount_of, group_by-sum}
use mint_flow.Capture.Database.{Db}
use mint_flow.Domain.Expense
use mint_flow.Domain.Expense.{Expense}
use mint_flow.Domain.Money.{CurrencyCode, currency_eq}
use mint_flow.Domain.Money.Laws.{currency_eq→eq}

unfoldable pub has_code : CurrencyCode → Expense → Bool
unfolding currency_eq
has_code c e = currency_eq e.money.currency c

-- one currency's rows are the rows of that currency among all
pub active_in-currency :
    (db : Db) (owner_id : ℕ) (period : DashboardPeriod) (c : CurrencyCode)
    → active_in db owner_id period (some c)
      ≡ filter (has_code c) (active_in db owner_id period none)
unfolding active_in has_code
active_in-currency db owner_id period c =
    filter-filter (is_active_in owner_id period none) (has_code c)
      (is_active_in owner_id period (some c))
      (λ e.
        split (e.owner_id == owner_id) (Expense.is_active e)
          (inside period e.transaction_date.value) (has_code c e))
      db.expenses
  where
    split :
        (a b i k : Bool) → (a && (b && (i && k))) ≡ (if a && (b && (i && true)) then k else false)
    split true true true k = refl
    split true true false k = refl
    split true false i k = refl
    split false b i k = refl

unfoldable pub occurs : CurrencyCode → Group CurrencyCode → ℕ
unfolding currency_eq
occurs c g = if currency_eq g.key c then 1 else 0

unfoldable pub groups_of : List Expense → List (Group CurrencyCode)
unfolding group_by currency_eq
groups_of es = group_by currency_eq (λ (e : Expense). e.money.currency) es

sum_of-where :
    (f : Expense → ℕ) (c : CurrencyCode) (es : List Expense)
    → sum_of (λ e. if currency_eq e.money.currency c then f e else 0) es
      ≡ sum_of f (filter (has_code c) es)
unfolding has_code
sum_of-where f c [] = refl
sum_of-where f c (e ∷ es) =
    let ih = sum_of-where f c es in
    elim (Bool-cases (currency_eq e.money.currency c)) [
      | inl h ↦ rw h (omega arith)
      | inr h ↦ rw h (omega arith)
    ]

-- a figure of the groups of one currency adds up over the rows of that currency
pub groups_of-sum :
    (c : CurrencyCode) (f : Group CurrencyCode → ℕ) (w : Expense → ℕ)
    → ((e : Expense) → f (record { key = e.money.currency; total = amount_of e; count = 1 }) ≡ w e)
    → ((e : Expense) (g : Group CurrencyCode)
        → f (record g { total = g.total + amount_of e; count = g.count + 1 }) ≡ f g + w e)
    → (es : List Expense)
    → sum_of (λ (g : Group CurrencyCode). if currency_eq g.key c then f g else 0) (groups_of es)
      ≡ sum_of w (filter (has_code c) es)
unfolding groups_of
groups_of-sum c f w first more es =
    group_by-sum currency_eq (λ (e : Expense). e.money.currency)
      (λ (g : Group CurrencyCode). if currency_eq g.key c then f g else 0)
      (λ e. if currency_eq e.money.currency c then w e else 0)
      (λ e. ap (λ n. if currency_eq e.money.currency c then n else 0) (first e))
      (λ e g h.
        add _ _ _ (currency_eq g.key c) (currency_eq e.money.currency c)
          (ap (λ k. currency_eq k c) (currency_eq→eq g.key e.money.currency h)) (more e g))
      es
    ∙ sum_of-where w c es
  where
    add :
        (n m k : ℕ) (a b : Bool)
        → a ≡ b
        → n ≡ m + k
        → (if a then n else 0) ≡ (if a then m else 0) + (if b then k else 0)
    add n m k true true e h = h
    add n m k true false e h = cc
    add n m k false true e h = cc
    add n m k false false e h = refl

-- no two groups have one currency
tally-occurs :
    (c key : CurrencyCode) (amount : ℕ) (gs : List (Group CurrencyCode))
    → currency_eq key c ≡ false
    → sum_of (occurs c) (tally currency_eq key amount gs) ≡ sum_of (occurs c) gs
unfolding tally occurs
tally-occurs c key amount [] h = rw h refl
tally-occurs c key amount (g ∷ gs) h =
    let ih = tally-occurs c key amount gs h in
    elim (Bool-cases (currency_eq g.key key)) [ inl e ↦ rw e refl | inr e ↦ rw e (omega arith) ]

other_key :
    (a b c : CurrencyCode)
    → currency_eq a c ≡ true
    → currency_eq a b ≡ false
    → currency_eq b c ≡ false
unfolding currency_eq
other_key a b c h e = ground arith

tally-once :
    (c key : CurrencyCode) (amount : ℕ) (gs : List (Group CurrencyCode))
    → sum_of (occurs c) gs ≤ 1
    → sum_of (occurs c) (tally currency_eq key amount gs) ≤ 1
unfolding tally occurs
tally-once c key amount [] le = ground arith
tally-once c key amount (g ∷ gs) le = elim (Bool-cases (currency_eq g.key key)) [
  | inl e ↦ rw e le
  | inr e ↦ rw e (elim (Bool-cases (currency_eq g.key c)) [
    | inl h ↦
        let kept = tally-occurs c key amount gs (other_key g.key key c h e) in
        let le' = rw h at le in rw h (omega arith)
    | inr h ↦
        let le' = rw h at le in
        let ih = tally-once c key amount gs (omega arith) in rw h (omega arith)
  ])
]

pub groups_of-once : (c : CurrencyCode) (es : List Expense) → sum_of (occurs c) (groups_of es) ≤ 1
unfolding groups_of group_by
groups_of-once c [] = omega arith
groups_of-once c (e ∷ es) =
    tally-once c e.money.currency (amount_of e) (groups_of es) (groups_of-once c es)
