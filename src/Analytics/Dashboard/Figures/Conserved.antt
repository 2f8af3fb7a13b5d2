-- ===== src/Analytics/Dashboard/Figures/Conserved.antt =====
-- No amount is lost between the totals and the chart, the categories and the merchants.
use mint_flow.Prelude.{
  ℕ, ◌+◌, ◌*◌, ◌≤◌, ◌≡◌, refl, ◌∙◌, arith, Bool, true, Bool-cases, inl, inr, not, none, some, List,
  [], ◌∷◌, map, filter, take, drop, length, sum_of, sort_by, All, ◌==◌, if◌then◌else◌, if_true,
  sum_of-append, sum_of-sort_by, sum_of-take, length-take,
}
use mint_flow.Prelude.Result.{ok, bind_ok}
use mint_flow.Calendar.{Date}
use mint_flow.Calendar.Ordinal.{IsDate}
use mint_flow.Analytics.Aggregates.{DailyTotal, MerchantTotal}
use mint_flow.Analytics.Dashboard.{TimeBucket, SpendingOverTime, MerchantSpending, TopMerchants}
use mint_flow.Analytics.Dashboard.Figures.{
  bucket_total, bucket_totals, named, others, top_merchants, total_of, count_of, has_merchant,
  merchant_before, merchant_spending, top_merchant_count,
}
use mint_flow.Analytics.Periods.{DashboardPeriod}
use mint_flow.Analytics.Periods.Buckets.{chart_buckets-partition}
use mint_flow.Analytics.Periods.Tiling.{inside, count_in}
use mint_flow.Analytics.Periods.Valid.{IsPeriod}

length-map {ℓ κ} :
    {A : Type ℓ} {B : Type κ} (g : A → B) (xs : List A) → length (map g xs) ≡ length xs
length-map g [] = refl
length-map g (x ∷ xs) = omega (arith, length-map g xs)

-- a sum over a list is the sum over what passes a test and what does not
pub sum_of-filter {ℓ} :
    {A : Type ℓ} (f : A → ℕ) (p : A → Bool) (xs : List A)
    → sum_of f (filter p xs) + sum_of f (filter (λ x. not (p x)) xs) ≡ sum_of f xs
sum_of-filter f p [] = refl
sum_of-filter f p (x ∷ xs) =
    let ih = sum_of-filter f p xs in
    elim (Bool-cases (p x)) [ inl h ↦ rw h (omega arith) | inr h ↦ rw h (omega arith) ]

pub sum_of-map {ℓ κ} :
    {A : Type ℓ} {B : Type κ} (f : B → ℕ) (g : A → B) (xs : List A)
    → sum_of f (map g xs) ≡ sum_of (λ x. f (g x)) xs
sum_of-map f g [] = refl
sum_of-map f g (x ∷ xs) = omega (arith, sum_of-map f g xs)

-- the merchants that are shown and the others are all the merchants
shown_and_others :
    (f : MerchantTotal → ℕ) (totals : List MerchantTotal)
    → sum_of f (take top_merchant_count (named totals)) + sum_of f (others totals) ≡ sum_of f totals
unfolding named others
shown_and_others f totals =
    let kept = filter has_merchant totals in
    let left = filter (λ t. not (has_merchant t)) totals in
    let sorted = sum_of-sort_by f merchant_before kept in
    let cut = sum_of-take f top_merchant_count (sort_by merchant_before kept) in
    let joined = sum_of-append f (drop top_merchant_count (sort_by merchant_before kept)) left in
    let split = sum_of-filter f has_merchant totals in omega arith

abbrev pub other_total : TopMerchants → ℕ
other_total t = elim t.other [ none ↦ 0 | some m ↦ m.total_minor_units ]

abbrev pub other_count : TopMerchants → ℕ
other_count t = elim t.other [ none ↦ 0 | some m ↦ m.count ]

abbrev pub HasCount : MerchantTotal → Type 0
HasCount t = 1 ≤ t.count

-- the amount of a total that counts nothing
uncounted : MerchantTotal → ℕ
uncounted t = if t.count == 0 then t.total_minor_units else 0

none_uncounted : (ts : List MerchantTotal) → All HasCount ts → sum_of uncounted ts ≡ 0
unfolding uncounted
none_uncounted [] h = refl
none_uncounted (t ∷ ts) (h, hs) = let ih = none_uncounted ts hs in ground arith

all_uncounted : (ts : List MerchantTotal) → count_of ts ≡ 0 → total_of ts ≡ sum_of uncounted ts
unfolding uncounted
all_uncounted [] h = refl
all_uncounted (t ∷ ts) h = let ih = all_uncounted ts (omega arith) in ground arith

-- The merchants that are shown, at most five of them, and the group of the others have together
-- the amount and the count of all the totals, if each total counts at least one expense.
pub top_merchants-conserves :
    (totals : List MerchantTotal) (grand_total : ℕ)
    → All HasCount totals
    → let t = top_merchants totals grand_total in
      (sum_of (λ (m : MerchantSpending). m.total_minor_units) t.merchants + other_total t
        ≡ total_of totals)
      × (sum_of (λ (m : MerchantSpending). m.count) t.merchants + other_count t ≡ count_of totals)
      × (length t.merchants ≤ top_merchant_count)
unfolding top_merchants
top_merchants-conserves totals grand_total h =
    let amounts = shown_and_others (λ (t : MerchantTotal). t.total_minor_units) totals in
    let counts = shown_and_others (λ (t : MerchantTotal). t.count) totals in
    let shown = take top_merchant_count (named totals) in
    let mapped =
      sum_of-map (λ (m : MerchantSpending). m.total_minor_units) (merchant_spending grand_total)
        shown in
    let mapped' =
      sum_of-map (λ (m : MerchantSpending). m.count) (merchant_spending grand_total) shown in
    let short = length-take top_merchant_count (named totals) in
    let size = length-map (merchant_spending grand_total) shown in
    elim (Bool-cases (count_of (others totals) == 0)) [
      | inl e ↦
          let none_left : count_of (others totals) ≡ 0 = ground arith in
          let empty = all_uncounted (others totals) none_left in
          let uncounted_all = shown_and_others uncounted totals in
          let nothing = none_uncounted totals h in rw e (omega arith, omega arith, omega arith)
      | inr e ↦ rw e (omega arith, omega arith, omega arith)
    ]

-- a daily total of a day of the period
abbrev pub IsOfPeriod : DashboardPeriod → DailyTotal → Type 0
IsOfPeriod p d = IsDate d.transaction_date × (inside p d.transaction_date ≡ true)

times_count : (f : DailyTotal → ℕ) → List DashboardPeriod → DailyTotal → ℕ
times_count f bs d = f d * count_in d.transaction_date bs

in_one_more :
    (f : DailyTotal → ℕ) (b : DashboardPeriod) (bs : List DashboardPeriod) (daily : List DailyTotal)
    → sum_of f (filter (λ (d : DailyTotal). inside b d.transaction_date) daily)
        + sum_of (times_count f bs) daily
      ≡ sum_of (times_count f (b ∷ bs)) daily
unfolding times_count
in_one_more f b bs [] = refl
in_one_more f b bs (d ∷ daily) =
    let ih = in_one_more f b bs daily in
    elim (Bool-cases (inside b d.transaction_date)) [
      | inl h ↦ rw h (grind arith)
      | inr h ↦ rw h (grind arith)
    ]

in_none : (f : DailyTotal → ℕ) (daily : List DailyTotal) → 0 ≡ sum_of (times_count f []) daily
unfolding times_count
in_none f [] = refl
in_none f (d ∷ daily) = let ih = in_none f daily in omega arith

-- the buckets have each day's figure as often as they have the day
sum_of-buckets :
    (f : DailyTotal → ℕ) (bs : List DashboardPeriod) (daily : List DailyTotal)
    → sum_of (λ b. sum_of f (filter (λ (d : DailyTotal). inside b d.transaction_date) daily)) bs
      ≡ sum_of (times_count f bs) daily
sum_of-buckets f [] daily = in_none f daily
sum_of-buckets f (b ∷ bs) daily =
    let ih = sum_of-buckets f bs daily in let more = in_one_more f b bs daily in omega arith

each_once :
    (f : DailyTotal → ℕ) (p : DashboardPeriod) (bs : List DashboardPeriod)
    → ((d : Date) → IsDate d → count_in d bs ≡ (if inside p d then 1 else 0))
    → (daily : List DailyTotal) → All (IsOfPeriod p) daily
    → sum_of (times_count f bs) daily ≡ sum_of f daily
unfolding times_count
each_once f p bs once [] h = refl
each_once f p bs once (d ∷ daily) ((valid, within), h) =
    let ih = each_once f p bs once daily h in
    let one = once d.transaction_date valid ∙ if_true 1 0 within in rw one (omega arith)

-- The chart of a valid period has all of the amount and of the count of its daily totals.
pub bucket_totals-conserves :
    (p : DashboardPeriod)
    → IsPeriod p
    → (daily : List DailyTotal) → All (IsOfPeriod p) daily
    → (s : SpendingOverTime) × (bucket_totals p daily ≡ ok s)
      × (sum_of (λ (b : TimeBucket). b.total_minor_units) s.buckets
          ≡ sum_of (λ (d : DailyTotal). d.total_minor_units) daily)
      × (sum_of (λ (b : TimeBucket). b.count) s.buckets
          ≡ sum_of (λ (d : DailyTotal). d.count) daily)
unfolding bucket_totals bucket_total
bucket_totals-conserves p v daily h =
    let (chart, e, once) = chart_buckets-partition p v in
    let bs = chart.buckets in
    let amount = sum_of-map (λ (b : TimeBucket). b.total_minor_units) (bucket_total daily) bs in
    let count = sum_of-map (λ (b : TimeBucket). b.count) (bucket_total daily) bs in
    (
      record { granularity = chart.granularity; buckets = map (bucket_total daily) bs },
      bind_ok _ e,
      amount
          ∙ (sum_of-buckets (λ (d : DailyTotal). d.total_minor_units) bs daily
              ∙ each_once _ p bs once daily h),
      count
          ∙ (sum_of-buckets (λ (d : DailyTotal). d.count) bs daily ∙ each_once _ p bs once daily h),
    )
