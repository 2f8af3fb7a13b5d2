-- ===== src/Capture/History/Walk.antt =====
-- Following the positions from page to page gives the whole history, each row once and in order.
use mint_flow.Prelude.{
  ℕ, zero, suc, ◌+◌, ◌-◌, ◌≤◌, ◌<◌, ◌≡◌, refl, sym, ◌∙◌, ap, arith, inl, inr, true, Bool-cases,
  Option, none, some, List, [], ◌∷◌, ◌++◌, filter, length, take, drop, ltb, ltb→lt, leb, ◌&&◌,
  if◌then◌else◌,
}
use mathlib.Core.Path.{subst}
use mathlib.Core.List.{append_assoc}
use mint_flow.Prelude.Result.{Result, ok, err}
use mint_flow.Capture.Database.{Db}
use mint_flow.Capture.History.{
  ExpenseHistoryFilter, ExpenseHistoryPosition, ExpenseHistoryPage, HistoryError, after, is_after,
  next_of, last_of, page_of, history, list_history, max_history_page_size,
}
use mint_flow.Domain.Expense.{Expense}
use mint_flow.Capture.History.Pages.{
  HasKeys, Descending, whole, history-after, whole-Descending, after_row,
}

take_more : {A : Type 0} (n : ℕ) (xs : List A) → take n (take (suc n) xs) ≡ take n xs
take_more zero xs = refl
take_more (suc n) [] = refl
take_more (suc n) (x ∷ xs) = ap (λ l. x ∷ l) (take_more n xs)

length_more :
    {A : Type 0} (n : ℕ) (xs : List A) → ltb n (length (take (suc n) xs)) ≡ ltb n (length xs)
length_more zero [] = refl
length_more zero (x ∷ xs) = ground arith
length_more (suc n) [] = refl
length_more (suc n) (x ∷ xs) = let ih = length_more n xs in ground arith

take_all : {A : Type 0} (n : ℕ) (xs : List A) → length xs ≤ n → take n xs ≡ xs
take_all zero [] h = refl
take_all zero (x ∷ xs) h = absurd (omega arith)
take_all (suc n) [] h = refl
take_all (suc n) (x ∷ xs) h = ap (λ l. x ∷ l) (take_all n xs (omega arith))

take-drop : {A : Type 0} (n : ℕ) (xs : List A) → take n xs ++ drop n xs ≡ xs
take-drop zero xs = refl
take-drop (suc n) [] = refl
take-drop (suc n) (x ∷ xs) = ap (λ l. x ∷ l) (take-drop n xs)

length-drop : {A : Type 0} (n : ℕ) (xs : List A) → length (drop n xs) ≤ length xs - n
length-drop zero xs = omega arith
length-drop (suc n) [] = omega arith
length-drop (suc n) (x ∷ xs) = let ih = length-drop n xs in omega arith

-- the page of the rows from a place on: the first of them, and the next position at the last of
-- these if there are more
page_of-rows :
    (n : ℕ) (rows : List Expense)
    → page_of n (take (n + 1) rows) ≡ record {
      items = take n rows;
      next_position = if ltb n (length rows) then next_of (take n rows) else none;
    }
unfolding page_of
page_of-rows n rows =
    let e : n + 1 ≡ suc n = omega arith in rw (e, take_more n rows, length_more n rows) refl

last_is :
    (e : Expense) (es : List Expense) → (zs : List Expense) × (e ∷ es ≡ zs ++ last_of e es ∷ [])
last_is e [] = ([], refl)
last_is e (f ∷ es) = let (zs, same) = last_is f es in (e ∷ zs, ap (λ l. e ∷ l) same)

-- a page with a next one starts it after its last row
next_of-last :
    (n : ℕ) (rows : List Expense)
    → 1 ≤ n
    → n < length rows
    → (zs : List Expense) × (e : Expense) × (take n rows ≡ zs ++ e ∷ [])
      × (next_of (take n rows) ≡ some (after e))
unfolding next_of
next_of-last zero rows low more = absurd (omega arith)
next_of-last (suc n) [] low more = absurd (omega arith)
next_of-last (suc n) (e ∷ rows) low more =
    let (zs, same) = last_is e (take n rows) in (zs, last_of e (take n rows), same, refl)

-- the pages from a position on, one after another, while there is a next one; none if a page is
-- refused or if there are more than `fuel`
abbrev follow :
    List Expense
    → Option ExpenseHistoryPosition
    → (ExpenseHistoryPosition → Option (List Expense))
    → Option (List Expense)
follow items none rest = some items
follow items (some position) rest = elim (rest position) [
  | none ↦ none
  | some others ↦ some (items ++ others)
]

abbrev follow_page :
    Result HistoryError ExpenseHistoryPage
    → (ExpenseHistoryPosition → Option (List Expense))
    → Option (List Expense)
follow_page (err _) rest = none
follow_page (ok page) rest = follow page.items page.next_position rest

module _ (db : Db) (owner_id : ℕ) (f : ExpenseHistoryFilter) (limit : ℕ) where
  unfoldable pub walk : ℕ → Option ExpenseHistoryPosition → Option (List Expense)
  unfolding list_history
  walk zero position = none
  walk (suc fuel) position =
      follow_page (list_history db owner_id f limit position) (λ next. walk fuel (some next))

  listed_page :
      (leb 1 limit && leb limit max_history_page_size) ≡ true
      → (position : Option ExpenseHistoryPosition) (rows : List Expense)
      → history db owner_id f position ≡ rows
      → list_history db owner_id f limit position
        ≡ ok (record {
          items = take limit rows;
          next_position = if ltb limit (length rows) then next_of (take limit rows) else none;
        })
  unfolding list_history
  listed_page fits position rows e = rw (fits, e, page_of-rows limit rows) refl

  -- the rows split at the last row of a page
  split_at :
      (pre zs : List Expense) (e : Expense) (items rows rest : List Expense)
      → items ≡ zs ++ e ∷ []
      → items ++ rest ≡ rows
      → pre ++ rows ≡ whole db owner_id f
      → (pre ++ zs) ++ e ∷ rest ≡ whole db owner_id f
  split_at pre zs e items rows rest same all split =
      append_assoc pre zs (e ∷ rest)
      ∙ (ap (λ l. pre ++ l)
            (sym (append_assoc zs (e ∷ []) rest) ∙ (ap (λ l. l ++ rest) (sym same) ∙ all))
          ∙ split)

  rest_of :
      HasKeys db
      → (pre zs : List Expense) (e : Expense) (rest : List Expense)
      → (pre ++ zs) ++ e ∷ rest ≡ whole db owner_id f
      → history db owner_id f (some (after e)) ≡ rest
  rest_of keys pre zs e rest w =
      history-after db owner_id f e
      ∙ (ap (filter (is_after (some (after e)))) (sym w)
          ∙ after_row (pre ++ zs) e rest
              (subst Descending (sym w) (whole-Descending db owner_id f keys)))

  walk-rows :
      (leb 1 limit && leb limit max_history_page_size) ≡ true
      → HasKeys db
      → (fuel : ℕ) (position : Option ExpenseHistoryPosition) (pre rows : List Expense)
      → pre ++ rows ≡ whole db owner_id f
      → history db owner_id f position ≡ rows
      → length rows < fuel
      → walk fuel position ≡ some rows
  unfolding walk
  walk-rows fits keys zero position pre rows split e enough = absurd (omega arith)
  walk-rows fits keys (suc fuel) position pre rows split e enough =
      let page = listed_page fits position rows e in
      elim (Bool-cases (ltb limit (length rows))) [
        | inl more ↦
            let (zs, e', same, next) = next_of-last limit rows (ground arith) (ltb→lt _ _ more) in
            let rest = drop limit rows in
            let shorter = length-drop limit rows in
            let ih =
              walk-rows fits keys fuel (some (after e')) (pre ++ take limit rows) rest
                (append_assoc pre (take limit rows) rest
                  ∙ (ap (λ l. pre ++ l) (take-drop limit rows) ∙ split))
                (rest_of keys pre zs e' rest (
                  split_at pre zs e' (take limit rows) rows rest same (take-drop limit rows) split))
                (ground arith) in
            rw page (rw more (rw (next, ih) (ap some (take-drop limit rows))))
        | inr last ↦ rw page (rw last (ap some (take_all limit rows (ground arith))))
      ]

-- With a limit from 1 to 100 and the ids as keys, the walk from page to page, from the first one on,
-- ends and gives the whole history: each row once, in order.
pub walk-history :
    (db : Db)
    → HasKeys db
    → (owner_id : ℕ) (f : ExpenseHistoryFilter) (limit : ℕ) → 1 ≤ limit
    → limit ≤ 100
    → walk db owner_id f limit (length (history db owner_id f none) + 1) none
      ≡ some (history db owner_id f none)
unfolding whole
walk-history db keys owner_id f limit low high =
    walk-rows db owner_id f limit (ground arith) keys _ none [] (history db owner_id f none) refl
      refl (omega arith)
