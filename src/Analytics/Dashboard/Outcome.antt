-- ===== src/Analytics/Dashboard/Outcome.antt =====
-- What a dashboard that is returned says of itself, and when one is returned.
use mint_flow.Prelude.{
  ℕ, ◌≡◌, refl, ap, Bool, true, false, ◌&&◌, not, Option, none, some, List, [], ◌∷◌, find, is_some,
  if◌then◌else◌,
}
use mint_flow.Prelude.Datetime.{Datetime}
use mint_flow.Prelude.Result.{Result, ok, err, ◌>>=◌, raise_if, ok_of_bind, ok_injective}
use mint_flow.Calendar.{Date}
use mint_flow.Analytics.Aggregates.{CurrencyTotal, AnalyticsRepository}
use mint_flow.Analytics.Dashboard.{Dashboard, DashboardDetail}
use mint_flow.Analytics.Dashboard.Build.{
  UserRepository, selected_detail, selected_dashboard, converted_dashboard, build, or_missing,
  or_default_period, execute,
}
use mint_flow.Analytics.Dashboard.Converter.{ConvertTo}
use mint_flow.Analytics.Dashboard.Detail.{detail, converted_detail}
use mint_flow.Analytics.Dashboard.Figures.{resolve_currency, empty_detail}
use mint_flow.Analytics.Errors.{AnalyticsError, both_modes}
use mint_flow.Analytics.Periods.{DashboardPeriod, local_today}
use mint_flow.Domain.Money.{CurrencyCode, currency_eq}
use mint_flow.Domain.User.{User}
use mint_flow.Domain.User.Preferences.{Zones}
use mint_flow.Rates.{ExchangeRate}

-- the detail is missing exactly if the user has to select a currency, and the conversion is there
-- exactly if one was asked for; with a detail that is converted or selected there is a currency
pub record IsConsistent (convert_to : Option ConvertTo) (d : Dashboard ExchangeRate) : Type 0 where
  pub has_detail : is_some d.detail ≡ not d.currency_selection_required
  pub has_conversion : is_some d.conversion ≡ is_some convert_to
  pub none_to_select : d.currency_selection_required ≡ true → d.currency ≡ none

is_shown :
    {A : Type 0} (step : Result AnalyticsError A) (f : A → DashboardDetail)
    {shown : Option DashboardDetail}
    → (step >>= λ a. ok (some (f a))) ≡ ok shown
    → is_some shown ≡ true
is_shown (ok a) f h = ap is_some (ok_injective h)
is_shown (err x) f h = cc

-- without a currency where one has to be selected
Resolves : Option CurrencyCode × Bool → Type 0
Resolves selection = selection.1 ≡ true → selection.0 ≡ none

resolved :
    (requested : Option CurrencyCode) (present : List CurrencyCode) (default : Option CurrencyCode)
    → Resolves (resolve_currency requested present default)
unfolding resolve_currency Resolves
resolved (some c) present default h = cc
resolved none [] default h = cc
resolved none (c ∷ []) default h = cc
resolved none (c ∷ c' ∷ cs) none h = refl
resolved none (c ∷ c' ∷ cs) (some d) h = go (is_some (find (currency_eq d) (c ∷ c' ∷ cs))) h
  where
    go : (b : Bool) → Resolves (if b then (some d, false) else (none, true))
    go true h = cc
    go false h = refl

module _ ⦃analytics : AnalyticsRepository⦄ where
  has_selected :
      (selected : Option CurrencyCode) (required : Bool) (caller_id : ℕ) (p : DashboardPeriod)
      (cs : List CurrencyTotal) (today : Date) {shown : Option DashboardDetail}
      → selected_detail (selected, required) caller_id p cs today ≡ ok shown
      → is_some shown ≡ not required
  unfolding selected_detail
  has_selected selected true caller_id p cs today h = ap is_some (ok_injective h)
  has_selected none false caller_id p cs today h = is_shown (empty_detail p) (λ d. d) h
  has_selected (some c) false caller_id p cs today h =
      is_shown (detail caller_id p c cs today (λ _. false)) (λ found. found.0) h

  selected-IsConsistent :
      (selection : Option CurrencyCode × Bool) (caller_id : ℕ) (p : DashboardPeriod)
      (cs : List CurrencyTotal) (today : Date) {d : Dashboard ExchangeRate}
      → Resolves selection
      → selected_dashboard selection caller_id p cs today ≡ ok d
      → IsConsistent none d
  unfolding selected_dashboard Resolves
  selected-IsConsistent (selected, required) caller_id p cs today resolves h =
      let (shown, e, e') =
        ok_of_bind (selected_detail (selected, required) caller_id p cs today) _ h in
      rw (ok_injective e') (record {
        has_detail = has_selected selected required caller_id p cs today e;
        has_conversion = refl;
        none_to_select = resolves;
      })

  converted-IsConsistent :
      (to : ConvertTo) (caller_id : ℕ) (p : DashboardPeriod) (cs : List CurrencyTotal)
      (today : Date) {d : Dashboard ExchangeRate}
      → converted_dashboard to caller_id p cs today ≡ ok d
      → IsConsistent (some to) d
  unfolding converted_dashboard
  converted-IsConsistent to caller_id p cs today h =
      let (found, e, e') = ok_of_bind (converted_detail to caller_id p cs today (λ _. false)) _ h in
      rw (ok_injective e')
        (record { has_detail = refl; has_conversion = refl; none_to_select = λ k. cc })

  build-IsConsistent :
      (currency : Option CurrencyCode) (convert_to : Option ConvertTo) (user : User) (caller_id : ℕ)
      (p : DashboardPeriod) (today : Date) {d : Dashboard ExchangeRate}
      → build currency convert_to user caller_id p today ≡ ok d
      → IsConsistent convert_to d
  unfolding build
  build-IsConsistent currency (some to) user caller_id p today h =
      converted-IsConsistent to caller_id p (analytics.currency_totals caller_id p) today h
  build-IsConsistent currency none user caller_id p today h =
      selected-IsConsistent _ caller_id p (analytics.currency_totals caller_id p) today
        (resolved currency _ user.default_currency) h

-- A dashboard that is returned has a detail exactly if the user does not have to select a currency,
-- and no currency where one has to be selected. It has a conversion exactly if one was asked for,
-- and then no single currency was.
pub execute-IsConsistent :
    ⦃analytics : AnalyticsRepository⦄ ⦃users : UserRepository⦄ ⦃z : Zones⦄ (caller_id : ℕ)
    (period : Option DashboardPeriod) (currency : Option CurrencyCode)
    (convert_to : Option ConvertTo) (now : Datetime) (d : Dashboard ExchangeRate)
    → execute caller_id period currency convert_to now ≡ ok d
    → IsConsistent convert_to d × ((is_some currency && is_some convert_to) ≡ false)
unfolding execute
execute-IsConsistent ⦃users = users⦄ caller_id period currency convert_to now d h =
    let (_, modes, h1) =
      ok_of_bind (raise_if (is_some currency && is_some convert_to) both_modes) _ h in
    let (user, _, h2) = ok_of_bind (or_missing (users.get caller_id)) _ h1 in
    let (shown, _, h3) = ok_of_bind (or_default_period period now user) _ h2 in
    let (today, _, h4) = ok_of_bind (local_today now user.timezone) _ h3 in
    (build-IsConsistent currency convert_to user caller_id shown today h4, not_both _ modes)
  where
    not_both : (b : Bool) {u : Unit {0}} → raise_if b both_modes ≡ ok u → b ≡ false
    not_both true e = cc
    not_both false e = refl
