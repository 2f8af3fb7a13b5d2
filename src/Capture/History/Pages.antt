-- ===== src/Capture/History/Pages.antt =====
-- The history is strictly descending, and what comes after a row is the rest of it.
use mint_flow.Prelude.{
  ℕ, ◌≤◌, ◌≡◌, refl, sym, ◌∙◌, ap, arith, inl, inr, Bool, true, false, Bool-cases, none, some, List,
  [], ◌∷◌, ◌++◌, filter, All, sum_of, sort_by, Ascending, sort_by-Ascending, sort_by-filter,
  sum_of-sort_by, ◌==◌, if◌then◌else◌,
}
use mint_flow.Capture.Database.{Db}
use mint_flow.Capture.History.{ExpenseHistoryFilter, after, is_listed, is_after, newer, history}
use mint_flow.Capture.History.Order.{newer-IsOrder, newer_total, newer_irrefl}
use mint_flow.Domain.Expense.{Expense}

-- how often a list has an id
times : ℕ → List Expense → ℕ
times k = sum_of (λ (e : Expense). if e.id == k then 1 else 0)

-- the primary key
abbrev pub HasKeys : Db → Type 0
HasKeys db = (k : ℕ) → sum_of (λ (e : Expense). if e.id == k then 1 else 0) db.expenses ≤ 1

-- each row is newer than those after it
unfoldable pub Descending : List Expense → Type 0
Descending [] = Unit
Descending (e ∷ es) = All (λ f. newer e f ≡ true) es × Descending es

filter-times : (p : Expense → Bool) (k : ℕ) (es : List Expense) → times k (filter p es) ≤ times k es
unfolding times
filter-times p k [] = omega arith
filter-times p k (e ∷ es) =
    let ih = filter-times p k es in
    elim (Bool-cases (p e)) [ inl h ↦ rw h (omega arith) | inr h ↦ rw h (omega arith) ]

-- a row is newer than the later rows, which are not newer and have other ids
newer_all :
    (e : Expense) (es : List Expense)
    → All (λ f. newer f e ≡ false) es
    → times e.id es ≤ 0
    → All (λ f. newer e f ≡ true) es
unfolding times
newer_all e [] h le = tt
newer_all e (f ∷ es) (k, h) le = elim (Bool-cases (f.id == e.id)) [
  | inl same ↦ let le' = rw same at le in absurd (omega arith)
  | inr other ↦
      let le' = rw other at le in (newer_total f e k (ground arith), newer_all e es h (omega arith))
]

Ascending-Descending :
    (es : List Expense) → Ascending newer es → ((k : ℕ) → times k es ≤ 1) → Descending es
unfolding Descending times
Ascending-Descending [] a once = tt
Ascending-Descending (e ∷ es) (above, a) once =
    let here = once e.id in
    (
      newer_all e es above (ground arith),
      Ascending-Descending es a (λ k. let o = once k in omega arith),
    )

-- what is after the row at a place of the list
after_none :
    (e : Expense) (es : List Expense)
    → All (λ f. newer e f ≡ true) es
    → filter (is_after (some (after e))) es ≡ es
unfolding is_after newer
after_none e [] h = refl
after_none e (f ∷ es) (k, h) = rw k (ap (λ l. f ∷ l) (after_none e es h))

middle :
    (P : Expense → Type 0) (xs : List Expense) (e : Expense) (ys : List Expense)
    → All P (xs ++ e ∷ ys)
    → P e
middle P [] e ys (h, hs) = h
middle P (x ∷ xs) e ys (h, hs) = middle P xs e ys hs

pub after_row :
    (xs : List Expense) (e : Expense) (ys : List Expense)
    → Descending (xs ++ e ∷ ys)
    → filter (is_after (some (after e))) (xs ++ e ∷ ys) ≡ ys
unfolding Descending is_after newer
after_row [] e ys (h, d) = rw (newer_irrefl e) (after_none e ys h)
after_row (x ∷ xs) e ys (h, d) =
    let before = newer-IsOrder.asym x e (middle _ xs e ys h) in rw before (after_row xs e ys d)

from_start : (es : List Expense) → filter (is_after none) es ≡ es
unfolding is_after
from_start [] = refl
from_start (e ∷ es) = ap (λ l. e ∷ l) (from_start es)

module _ (db : Db) (owner_id : ℕ) (f : ExpenseHistoryFilter) where
  unfoldable pub whole : List Expense
  unfolding history
  whole = history db owner_id f none

  -- the rows after a position are those of the whole history after it
  pub history-after :
      (e : Expense)
      → history db owner_id f (some (after e)) ≡ filter (is_after (some (after e))) whole
  unfolding history whole
  history-after e =
      let listed = filter (is_listed owner_id f) db.expenses in
      sort_by-filter (is_after (some (after e))) newer newer-IsOrder listed
      ∙ ap (λ l. filter (is_after (some (after e))) (sort_by newer l)) (sym (from_start listed))

  pub whole-Descending : HasKeys db → Descending whole
  unfolding whole history times
  whole-Descending keys =
      let listed = filter (is_listed owner_id f) db.expenses in
      Ascending-Descending whole
        (sort_by-Ascending newer newer-IsOrder
          (filter (is_after none) (filter (is_listed owner_id f) db.expenses)))
        (λ k.
          let key = keys k in
          let kept = filter-times (is_listed owner_id f) k db.expenses in
          let kept' = filter-times (is_after none) k listed in
          let sorted =
            sum_of-sort_by (λ (e : Expense). if e.id == k then 1 else 0) newer
              (filter (is_after none) listed) in
          omega arith)
