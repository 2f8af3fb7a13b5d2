-- ===== src/Analytics/Dashboard/Figures/Ranked.antt =====
-- The order of the categories and of the merchants.
use mint_flow.Prelude.{
  ℕ, ◌≤◌, ◌≡◌, refl, arith, false, List, [], ◌∷◌, map, sort_by, Ascending, IsOrder, All, All-map,
  All-imp, sort_by-perm, sort_by-Ascending,
}
use mathlib.Core.List.{Perm}
use mint_flow.Prelude.Text.{text_lt, text_lt_asym, text_lt_trans}
use mint_flow.Analytics.Aggregates.{CategoryTotal}
use mint_flow.Analytics.Dashboard.{CategorySpending}
use mint_flow.Prelude.Int.{pos}
use mint_flow.Analytics.Dashboard.Shares.{share_basis_points}
use mint_flow.Analytics.Dashboard.Figures.{rank_categories, category_before, category_spending}

category_before-IsOrder : IsOrder category_before
unfolding category_before
category_before-IsOrder = record {
  asym = λ a b h. ground (arith, text_lt_asym a.category_key b.category_key);
  trans = λ a b c h k. ground (arith, text_lt_trans a.category_key b.category_key c.category_key);
}

-- no category after this one has a greater amount, or an equal amount and an earlier key
abbrev pub Precedes : CategorySpending → CategorySpending → Type 0
Precedes first later =
    (later.total_minor_units ≤ first.total_minor_units)
    × (later.total_minor_units ≡ first.total_minor_units
        → text_lt later.category_key first.category_key ≡ false)

abbrev pub Ranked : List CategorySpending → Type 0
Ranked [] = Unit
Ranked (first ∷ rest) = All (Precedes first) rest × Ranked rest

-- a figure shows the total, and its share of the whole
pub record Shows (whole : ℕ) (total : CategoryTotal) (figure : CategorySpending) : Type 0 where
  pub key : figure.category_key ≡ total.category_key
  pub name : figure.category_name ≡ total.category_name
  pub amount : figure.total_minor_units ≡ total.total_minor_units
  pub number : figure.count ≡ total.count
  pub share :
      figure.share_basis_points ≡ share_basis_points (pos total.total_minor_units) (pos whole)

-- the figures show the totals, one by one
abbrev pub AllShow : ℕ → List CategoryTotal → List CategorySpending → Type 0
AllShow whole [] [] = Unit
AllShow whole (total ∷ totals) (figure ∷ figures) =
    Shows whole total figure × AllShow whole totals figures
AllShow whole _ _ = ⊥

precedes :
    (whole : ℕ) (a b : CategoryTotal)
    → category_before b a ≡ false
    → Precedes (category_spending whole a) (category_spending whole b)
unfolding category_before category_spending
precedes whole a b h = (ground arith, λ e. ground arith)

Ascending-Ranked :
    (whole : ℕ) (totals : List CategoryTotal)
    → Ascending category_before totals
    → Ranked (map (category_spending whole) totals)
Ascending-Ranked whole [] h = tt
Ascending-Ranked whole (a ∷ totals) (h, hs) = (
  All-map (Precedes (category_spending whole a)) (category_spending whole) totals
      (All-imp (λ b. precedes whole a b) totals h),
  Ascending-Ranked whole totals hs,
)

spending-AllShow :
    (whole : ℕ) (totals : List CategoryTotal)
    → AllShow whole totals (map (category_spending whole) totals)
unfolding category_spending
spending-AllShow whole [] = tt
spending-AllShow whole (a ∷ totals) = (
  record { key = refl; name = refl; amount = refl; number = refl; share = refl },
  spending-AllShow whole totals,
)

-- The ranked categories show the given totals in another order, each with its share of the whole: a
-- category has no greater amount after it, and of two equal amounts the one with the earlier key
-- stands first.
pub rank_categories-Ranked :
    (totals : List CategoryTotal) (whole : ℕ)
    → Ranked (rank_categories totals whole)
      × ((ordered : List CategoryTotal) × Perm ordered totals
          × AllShow whole ordered (rank_categories totals whole))
unfolding rank_categories
rank_categories-Ranked totals whole =
    let ordered = sort_by category_before totals in
    (
      Ascending-Ranked whole ordered
          (sort_by-Ascending category_before category_before-IsOrder totals),
      (ordered, sort_by-perm category_before totals, spending-AllShow whole ordered),
    )
