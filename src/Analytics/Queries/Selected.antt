-- ===== src/Analytics/Queries/Selected.antt =====
-- The total of one currency among the totals by currency.
use mint_flow.Prelude.{
  ℕ, ◌≤◌, ◌≡◌, refl, sym, ◌∙◌, ap, arith, inl, inr, Bool, Bool-cases, none, some, List, [], ◌∷◌,
  map, find, length, sum_of, sum_of-sort_by, if◌then◌else◌,
}
use mint_flow.Analytics.Aggregates.{CurrencyTotal}
use mint_flow.Analytics.Dashboard.Detail.{amount_or_zero}
use mint_flow.Analytics.Dashboard.Figures.Conserved.{sum_of-map}
use mint_flow.Analytics.Periods.{DashboardPeriod}
use mint_flow.Analytics.Queries.{
  Collation, Group, active_in, of_currency, currency_totals, currency_order,
}
use mint_flow.Analytics.Queries.Groups.{amount_of, ones}
use mint_flow.Analytics.Queries.Totals.{
  active_in-currency, groups_of, groups_of-sum, groups_of-once, occurs,
}
use mint_flow.Capture.Database.{Db}
use mint_flow.Domain.Money.{CurrencyCode, currency_eq}

-- a figure of the totals of one currency, and how many there are
figure_in : CurrencyCode → (CurrencyTotal → ℕ) → CurrencyTotal → ℕ
figure_in c f t = if currency_eq t.currency c then f t else 0

is_of : CurrencyCode → CurrencyTotal → Bool
is_of c t = currency_eq t.currency c

pair : {a b c d : ℕ} → a ≡ b → c ≡ d → ◌≡◌ {A = ℕ × ℕ} (a, c) (b, d)
pair e f = rw (e, f) refl

absent :
    (c : CurrencyCode) (f : CurrencyTotal → ℕ) (ts : List CurrencyTotal)
    → sum_of (figure_in c (λ t. 1)) ts ≡ 0
    → sum_of (figure_in c f) ts ≡ 0
unfolding figure_in
absent c f [] e = refl
absent c f (t ∷ ts) e = elim (Bool-cases (currency_eq t.currency c)) [
  | inl h ↦ let e' = rw h at e in absurd (omega arith)
  | inr h ↦ let e' = rw h at e in let ih = absent c f ts (omega arith) in rw h (omega arith)
]

-- what is found of a currency that occurs at most once
found_once :
    (c : CurrencyCode) (ts : List CurrencyTotal)
    → sum_of (figure_in c (λ t. 1)) ts ≤ 1
    → amount_or_zero (find (is_of c) ts)
      ≡ (sum_of (figure_in c (λ t. t.total_minor_units)) ts, sum_of (figure_in c (λ t. t.count)) ts)
unfolding figure_in is_of
found_once c [] le = refl
found_once c (t ∷ ts) le = elim (Bool-cases (currency_eq t.currency c)) [
  | inl h ↦
      let le' = rw h at le in
      let amounts = absent c (λ t. t.total_minor_units) ts (omega arith) in
      let counts = absent c (λ t. t.count) ts (omega arith) in
      rw h (pair (omega arith) (omega arith))
  | inr h ↦
      let le' = rw h at le in
      let ih = found_once c ts (omega arith) in rw h (ih ∙ pair (omega arith) (omega arith))
]

module _ ⦃collation : Collation⦄ where
  totals-sum :
      (db : Db) (owner_id : ℕ) (period : DashboardPeriod) (c : CurrencyCode) (f : CurrencyTotal → ℕ)
      → sum_of (figure_in c f) (currency_totals db owner_id period)
        ≡ sum_of
            (λ (g : Group CurrencyCode). if currency_eq g.key c then f (of_currency g) else 0)
            (groups_of (active_in db owner_id period none))
  unfolding currency_totals figure_in groups_of
  totals-sum db owner_id period c f =
      sum_of-sort_by (figure_in c f) currency_order
        (map of_currency (groups_of (active_in db owner_id period none)))
      ∙ sum_of-map (figure_in c f) of_currency (groups_of (active_in db owner_id period none))

  -- For each currency the totals by currency have the amount and the number of the active expenses
  -- of the owner that are in the period and of that currency.
  pub currency_totals-found :
      (db : Db) (owner_id : ℕ) (period : DashboardPeriod) (c : CurrencyCode)
      → amount_or_zero (
          find
            (λ (t : CurrencyTotal). currency_eq t.currency c)
            (currency_totals db owner_id period))
        ≡ (
          sum_of amount_of (active_in db owner_id period (some c)),
          length (active_in db owner_id period (some c)),
        )
  unfolding is_of figure_in occurs
  currency_totals-found db owner_id period c =
      let rows = active_in db owner_id period none in
      let once = groups_of-once c rows in
      let number = totals-sum db owner_id period c (λ t. 1) in
      found_once c (currency_totals db owner_id period) (rw number once)
      ∙ pair
          (totals-sum db owner_id period c (λ t. t.total_minor_units)
            ∙ (groups_of-sum c (λ g. g.total) amount_of (λ e. refl) (λ e g. refl) rows
                ∙ ap (sum_of amount_of) (sym (active_in-currency db owner_id period c))))
          (totals-sum db owner_id period c (λ t. t.count)
            ∙ (groups_of-sum c (λ g. g.count) (λ e. 1) (λ e. refl) (λ e g. refl) rows
                ∙ (ap (sum_of (λ e. 1)) (sym (active_in-currency db owner_id period c)) ∙ ones _)))
