-- ===== src/Rates/Saved.antt =====
-- A refresh of src/mintflow/application/rates/rates.py with the table of
-- src/mintflow/infrastructure/persistence/exchange_rates.py: what it stores of what is published.
use mint_flow.Prelude.{
  ℕ, zero, suc, inl, inr, Bool-cases, ◌+◌, ◌*◌, ◌/◌, ◌^◌, ◌≤◌, ◌<◌, ◌≡◌, refl, ◌∙◌, ap, Bool, true,
  false, Option, none, some, List, [], ◌∷◌, ◌++◌, map, find, All, arith, if◌then◌else◌,
}
use native.Mathlib.Nat.{div-add-mod', mod-lt}
use mint_flow.Prelude.Datetime.{Instant}
use mint_flow.Prelude.Int.{sub_ℕ, pos_part, neg_part}
use mint_flow.Prelude.Result.{ok}
use mint_flow.Prelude.Text.{Text}
use mint_flow.Rates.{
  ExchangeRate, Source, RateRecord, RefreshResult, code_of, is_code, choose, choose_all, fetched,
  div_half_up, column_units, in_column, is_storable, column_values, upsert_all, save, execute,
  result_of,
}
use mint_flow.Rates.Refresh.{first_of, published, is_wanted, next_chosen, stored, choose_all-found}
use mint_flow.Rates.Stored.{Distinct, upsert_all-stored, choose_all-Distinct}

-- the rate, its value rounded to the nearest multiple of 10 ^ -10
pub record IsRounded (rate kept : ExchangeRate) : Type 0 where
  pub currency : kept.currency ≡ rate.currency
  pub date : kept.rate_date ≡ rate.rate_date
  pub source : kept.source ≡ rate.source
  pub scale : kept.units_per_eur.exponent ≡ sub_ℕ 0 10
  pub not_above :
      kept.units_per_eur.coefficient * 10 ^ neg_part rate.units_per_eur.exponent * 2
      ≤ rate.units_per_eur.coefficient * 10 ^ pos_part rate.units_per_eur.exponent * 10 ^ 10 * 2
        + 10 ^ neg_part rate.units_per_eur.exponent
  pub not_below :
      rate.units_per_eur.coefficient * 10 ^ pos_part rate.units_per_eur.exponent * 10 ^ 10 * 2
      < kept.units_per_eur.coefficient * 10 ^ neg_part rate.units_per_eur.exponent * 2
        + 10 ^ neg_part rate.units_per_eur.exponent

-- what the table has of a code, after a refresh
abbrev pub Holds : Option ExchangeRate → Option ExchangeRate → Option ExchangeRate → Type 0
Holds none before after = after ≡ before
Holds (some rate) before after = (kept : ExchangeRate) × (after ≡ some kept) × IsRounded rate kept

abbrev in_table : Option ExchangeRate → Option ExchangeRate
in_table none = none
in_table (some rate) = some (in_column rate)

twice_pos : (d : ℕ) → 0 < d → 0 < d * 2
twice_pos d h = omega arith

half_up :
    (n d : ℕ)
    → 0 < d
    → (div_half_up n d * d * 2 ≤ n * 2 + d) × (n * 2 < div_half_up n d * d * 2 + d)
half_up n d h =
    let q : ℕ = (n * 2 + d) / (d * 2) in
    let whole = div-add-mod' (n * 2 + d) (d * 2) in
    let small = mod-lt (n * 2 + d) (twice_pos d h) in
    let regroup : q * (d * 2) ≡ q * d * 2 = grind arith in (omega arith, omega arith)

power : (k : ℕ) → 0 < 10 ^ k
power zero = omega arith
power (suc k) = let ih = power k in grind arith

in_column-IsRounded : (rate : ExchangeRate) → IsRounded rate (in_column rate)
unfolding in_column column_units
in_column-IsRounded rate =
    let n = rate.units_per_eur.coefficient * 10 ^ pos_part rate.units_per_eur.exponent * 10 ^ 10 in
    let d = 10 ^ neg_part rate.units_per_eur.exponent in
    let (above, below) = half_up n d (power (neg_part rate.units_per_eur.exponent)) in
    record {
      currency = refl;
      date = refl;
      source = refl;
      scale = refl;
      not_above = above;
      not_below = below;
    }

values_stored :
    (rates : List ExchangeRate)
    → All (λ r. is_storable r ≡ true) rates
    → column_values rates ≡ ok (map in_column rates)
unfolding column_values
values_stored [] h = refl
values_stored (rate ∷ rates) (h, hs) = rw (h, values_stored rates hs) refl

find-map :
    (code : Text) (rates : List ExchangeRate)
    → find (is_code code) (map in_column rates) ≡ in_table (find (is_code code) rates)
unfolding in_column is_code code_of
find-map code [] = refl
find-map code (rate ∷ rates) = elim (Bool-cases (is_code code rate)) [
  | inl h ↦ rw h refl
  | inr h ↦ rw h (find-map code rates)
]

map-Distinct : (rates : List ExchangeRate) → Distinct rates → Distinct (map in_column rates)
unfolding Distinct in_column code_of
map-Distinct [] d = tt
map-Distinct (rate ∷ rates) (apart, d) =
    (find-map (code_of rate) rates ∙ ap in_table apart, map-Distinct rates d)

All-append : {A : Type 0} (P : A → Type 0) (xs ys : List A) → All P xs → All P ys → All P (xs ++ ys)
All-append P [] ys h k = k
All-append P (x ∷ xs) ys (h, hs) k = (h, All-append P xs ys hs k)

All-split : {A : Type 0} (P : A → Type 0) (xs ys : List A) → All P (xs ++ ys) → All P xs × All P ys
All-split P [] ys h = (tt, h)
All-split P (x ∷ xs) ys (h, hs) = let (k, ks) = All-split P xs ys hs in ((h, k), ks)

module _ (P : ExchangeRate → Type 0) where
  next-All :
      (b : Bool) (chosen : List ExchangeRate) (rate : ExchangeRate)
      → All P chosen
      → P rate
      → All P (if b then chosen ++ rate ∷ [] else chosen)
  next-All true chosen rate h k = All-append P chosen (rate ∷ []) h (k, tt)
  next-All false chosen rate h k = h

  choose-All :
      (rates chosen : List ExchangeRate) → All P chosen → All P rates → All P (choose chosen rates)
  unfolding choose
  choose-All [] chosen h k = h
  choose-All (rate ∷ rates) chosen h (k, ks) =
      choose-All rates (next_chosen chosen rate) (next-All _ chosen rate h k) ks

  choose_all-All :
      (sources : List Source) (chosen : List ExchangeRate)
      → All P chosen
      → All P (published sources)
      → All P (choose_all chosen sources)
  unfolding choose_all fetched
  choose_all-All [] chosen h k = h
  choose_all-All (source ∷ sources) chosen h k = go source.fetch k (choose_all-All sources)
    where
      go :
          (answer : Option (List ExchangeRate))
          → All P
              (elim answer [ none ↦ published sources | some rates ↦ rates ++ published sources ])
          → ((c : List ExchangeRate)
              → All P c
              → All P (published sources)
              → All P (choose_all c sources))
          → All P (
              choose_all (elim answer [ none ↦ chosen | some rates ↦ choose chosen rates ]) sources)
      go none k ih = ih chosen h k
      go (some rates) k ih =
          let (ks, rest) = All-split P rates (published sources) k in
          ih (choose chosen rates) (choose-All rates chosen h ks) rest

rounded-Holds :
    (found before : Option ExchangeRate) → Holds found before (first_of (in_table found) before)
rounded-Holds none before = refl
rounded-Holds (some rate) before = (in_column rate, refl, in_column-IsRounded rate)

-- Where the table has room for every rate that the sources which answered publish, a refresh returns;
-- after it the stored rate of a wanted code is the first published one, in the order of the sources,
-- rounded to the nearest of ten decimals, and without one, or of a code that is not wanted, it is the
-- rate stored before.
pub execute-stored :
    (code : Text) (sources : List Source) (now : Instant) (rows : List RateRecord)
    → All (λ rate. is_storable rate ≡ true) (published sources)
    → (result : RefreshResult) × (rows' : List RateRecord) × (execute sources now rows
        ≡ ok (result, rows'))
      × Holds (find (is_wanted code) (published sources)) (stored code rows) (stored code rows')
unfolding execute save Distinct
execute-stored code sources now rows fits =
    let chosen = choose_all [] sources in
    let values : List ExchangeRate = map in_column chosen in
    let saved =
      values_stored chosen (choose_all-All (λ rate. is_storable rate ≡ true) sources [] tt fits) in
    let after =
      upsert_all-stored code now values rows
        (map-Distinct chosen (choose_all-Distinct [] sources tt))
      ∙ ap (λ o. first_of o (stored code rows))
          (find-map code chosen ∙ ap in_table (choose_all-found code [] sources)) in
    (
      result_of sources chosen,
      upsert_all now values rows,
      rw saved refl,
      rw after (rounded-Holds (find (is_wanted code) (published sources)) (stored code rows)),
    )
