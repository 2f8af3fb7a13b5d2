-- ===== src/Analytics/Queries/Groups.antt =====
-- What grouping keeps: the amounts, the number of rows and what is known of the keys.
use mint_flow.Prelude.{
  ℕ, ◌+◌, ◌≤◌, ◌≡◌, refl, ◌∙◌, arith, inl, inr, Bool, true, Bool-cases, List, [], ◌∷◌, length, All,
  sum_of,
}
use mint_flow.Analytics.Queries.{Group, tally, group_by}
use mint_flow.Domain.Expense.{Expense}

abbrev pub amount_of : Expense → ℕ
amount_of e = e.money.minor_units

pub ones : (es : List Expense) → sum_of (λ e. 1) es ≡ length es
ones [] = refl
ones (e ∷ es) = omega (arith, ones es)

module _ {K : Type 0} (same : K → K → Bool) where
  -- a figure of groups that adds up, by the key
  tally-sum :
      (f : Group K → ℕ) (key : K) (amount : ℕ) (weight : ℕ)
      → f (record { key = key; total = amount; count = 1 }) ≡ weight
      → ((g : Group K)
          → same g.key key ≡ true
          → f (record g { total = g.total + amount; count = g.count + 1 }) ≡ f g + weight)
      → (gs : List (Group K)) → sum_of f (tally same key amount gs) ≡ sum_of f gs + weight
  unfolding tally
  tally-sum f key amount weight first more [] = omega (arith, first)
  tally-sum f key amount weight first more (g ∷ gs) =
      let ih = tally-sum f key amount weight first more gs in
      elim (Bool-cases (same g.key key)) [
        | inl e ↦ let added = more g e in rw e (omega arith)
        | inr e ↦ rw e (omega arith)
      ]

  pub group_by-sum :
      (key_of : Expense → K) (f : Group K → ℕ) (w : Expense → ℕ)
      → ((e : Expense) → f (record { key = key_of e; total = amount_of e; count = 1 }) ≡ w e)
      → ((e : Expense) (g : Group K)
          → same g.key (key_of e) ≡ true
          → f (record g { total = g.total + amount_of e; count = g.count + 1 }) ≡ f g + w e)
      → (es : List Expense) → sum_of f (group_by same key_of es) ≡ sum_of w es
  unfolding group_by
  group_by-sum key_of f w first more [] = refl
  group_by-sum key_of f w first more (e ∷ es) =
      let ih = group_by-sum key_of f w first more es in
      let step =
        tally-sum f (key_of e) (amount_of e) (w e) (first e) (more e) (group_by same key_of es) in
      omega arith

  pub group_by-total :
      (key_of : Expense → K) (es : List Expense)
      → sum_of (λ (g : Group K). g.total) (group_by same key_of es) ≡ sum_of amount_of es
  group_by-total key_of es =
      group_by-sum key_of (λ (g : Group K). g.total) amount_of (λ e. refl) (λ e g h. refl) es

  pub group_by-count :
      (key_of : Expense → K) (es : List Expense)
      → sum_of (λ (g : Group K). g.count) (group_by same key_of es) ≡ length es
  group_by-count key_of es =
      group_by-sum key_of (λ (g : Group K). g.count) (λ e. 1) (λ e. refl) (λ e g h. refl) es
      ∙ ones es

  tally-All :
      (P : K → Type 0) (key : K) (amount : ℕ)
      → P key
      → (gs : List (Group K)) → All (λ (g : Group K). P g.key) gs
      → All (λ (g : Group K). P g.key) (tally same key amount gs)
  unfolding tally
  tally-All P key amount h [] hs = (h, tt)
  tally-All P key amount h (g ∷ gs) (k, hs) = elim (Bool-cases (same g.key key)) [
    | inl e ↦ rw e (k, hs)
    | inr e ↦ rw e (k, tally-All P key amount h gs hs)
  ]

  pub group_by-All :
      (P : K → Type 0) (key_of : Expense → K) (es : List Expense)
      → All (λ e. P (key_of e)) es
      → All (λ (g : Group K). P g.key) (group_by same key_of es)
  unfolding group_by
  group_by-All P key_of [] hs = tt
  group_by-All P key_of (e ∷ es) (h, hs) =
      tally-All P (key_of e) (amount_of e) h (group_by same key_of es) (group_by-All P key_of es hs)

  tally-counted :
      (key : K) (amount : ℕ) (gs : List (Group K))
      → All (λ (g : Group K). 1 ≤ g.count) gs
      → All (λ (g : Group K). 1 ≤ g.count) (tally same key amount gs)
  unfolding tally
  tally-counted key amount [] hs = (omega arith, tt)
  tally-counted key amount (g ∷ gs) (k, hs) = elim (Bool-cases (same g.key key)) [
    | inl e ↦ rw e (omega arith, hs)
    | inr e ↦ rw e (k, tally-counted key amount gs hs)
  ]

  pub group_by-counted :
      (key_of : Expense → K) (es : List Expense)
      → All (λ (g : Group K). 1 ≤ g.count) (group_by same key_of es)
  unfolding group_by
  group_by-counted key_of [] = tt
  group_by-counted key_of (e ∷ es) =
      tally-counted (key_of e) (amount_of e) (group_by same key_of es) (group_by-counted key_of es)
