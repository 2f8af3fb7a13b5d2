-- ===== src/Rates/Stored.antt =====
-- What inserting rates leaves in the table of rates, and that a refresh inserts one rate of a code.
use mint_flow.Prelude.{
  ◌≡◌, refl, sym, ◌∙◌, ap, inl, inr, Bool, true, false, ◌&&◌, Bool-cases, Option, none, some, List,
  [], ◌∷◌, ◌++◌, find, is_none, none_found, if_true, if_false, if◌then◌else◌,
}
use mathlib.Core.Path.{subst}
use mint_flow.Prelude.Datetime.{Instant}
use mint_flow.Prelude.Text.{Text, text_eq, text_eq→eq, text_eq_refl}
use mint_flow.Rates.{
  ExchangeRate, Source, RateRecord, code_of, wanted, has_text, is_code, choose, fetched, choose_all,
  upsert, upsert_all,
}
use mint_flow.Rates.Refresh.{
  first_of, find-append, next_chosen, rate_of, first_row, stored, is_code→eq,
}

-- texts that are not equal are not equal the other way round
differ : (s t : Text) → text_eq s t ≡ false → text_eq t s ≡ false
differ s t h = elim (Bool-cases (text_eq t s)) [
  | inl k ↦ absurd (apart (sym (text_eq_refl s) ∙ (ap (text_eq s) (sym (text_eq→eq t s k)) ∙ h)))
  | inr k ↦ k
]
  where
    apart : true ≡ false → ⊥
    apart e = cc

-- no two rates have one code
unfoldable pub Distinct : List ExchangeRate → Type 0
Distinct [] = Unit
Distinct (rate ∷ rates) = (find (is_code (code_of rate)) rates ≡ none) × Distinct rates

swap : (a b : ExchangeRate) → is_code (code_of b) a ≡ false → is_code (code_of a) b ≡ false
unfolding is_code
swap a b h = differ (code_of a) (code_of b) h

Distinct-append :
    (rates : List ExchangeRate) (rate : ExchangeRate)
    → Distinct rates
    → find (is_code (code_of rate)) rates ≡ none
    → Distinct (rates ++ rate ∷ [])
unfolding Distinct
Distinct-append [] rate d e = (refl, tt)
Distinct-append (first ∷ rates) rate (apart, d) e =
    let (other, rest) = none_found (is_code (code_of rate)) first rates e in
    (
      find-append (is_code (code_of first)) rates (rate ∷ [])
          ∙ rw (apart, swap first rate other) refl,
      Distinct-append rates rate d rest,
    )

choose-Distinct :
    (chosen rates : List ExchangeRate) → Distinct chosen → Distinct (choose chosen rates)
unfolding choose
choose-Distinct chosen [] d = d
choose-Distinct chosen (rate ∷ rates) d =
    choose-Distinct (next_chosen chosen rate) rates
      (go (has_text (code_of rate) wanted) (find (is_code (code_of rate)) chosen) refl)
  where
    go :
        (w : Bool) (found : Option ExchangeRate)
        → find (is_code (code_of rate)) chosen ≡ found
        → Distinct (if w && is_none found then chosen ++ rate ∷ [] else chosen)
    go false found e = d
    go true (some r) e = d
    go true none e = Distinct-append chosen rate d e

pub choose_all-Distinct :
    (chosen : List ExchangeRate) (sources : List Source)
    → Distinct chosen
    → Distinct (choose_all chosen sources)
unfolding choose_all
choose_all-Distinct chosen [] d = d
choose_all-Distinct chosen (source ∷ sources) d =
    choose_all-Distinct (fetched source chosen) sources (go source.fetch)
  where
    go :
        (answer : Option (List ExchangeRate))
        → Distinct (elim answer [ none ↦ chosen | some rates ↦ choose chosen rates ])
    go none = d
    go (some rates) = choose-Distinct chosen rates d

stored-first :
    (code : Text) (row : RateRecord) (rows : List RateRecord) (here : Bool)
    → text_eq row.code code ≡ here
    → stored code (row ∷ rows) ≡ (if here then some row.rate else stored code rows)
stored-first code row rows true e =
    ap (λ b. rate_of (if b then some row else first_row code rows)) e
stored-first code row rows false e =
    ap (λ b. rate_of (if b then some row else first_row code rows)) e

upsert-stored :
    (code : Text) (now : Instant) (rows : List RateRecord) (rate : ExchangeRate)
    → stored code (upsert now rows rate)
      ≡ (if is_code code rate then some rate else stored code rows)
unfolding upsert is_code
upsert-stored code now [] rate =
    stored-first code (record { code = code_of rate; rate = rate; fetched_at = now }) [] _ refl
upsert-stored code now (row ∷ rows) rate =
    let ih = upsert-stored code now rows rate in
    elim (Bool-cases (text_eq row.code (code_of rate))) [
      | inl same ↦
          let replaced : RateRecord = record { code = row.code; rate = rate; fetched_at = now } in
          let e = ap (λ c. text_eq c code) (text_eq→eq row.code (code_of rate) same) in
          rw same (elim (Bool-cases (text_eq (code_of rate) code)) [
            | inl k ↦ stored-first code replaced rows true (e ∙ k) ∙ sym (if_true _ _ k)
            | inr k ↦
                stored-first code replaced rows false (e ∙ k)
                ∙ sym (if_false _ _ k ∙ stored-first code row rows false (e ∙ k))
          ])
      | inr other ↦ rw other (elim (Bool-cases (text_eq row.code code)) [
        | inl here ↦
            let k = not_here (text_eq→eq row.code code here) other in
            stored-first code row (upsert now rows rate) true here
            ∙ sym (if_false _ _ k ∙ stored-first code row rows true here)
        | inr there ↦
            stored-first code row (upsert now rows rate) false there
            ∙ (ih
                ∙ ap (λ o. if is_code code rate then some rate else o)
                    (sym (stored-first code row rows false there)))
      ])
    ]
  where
    not_here :
        row.code ≡ code
        → text_eq row.code (code_of rate) ≡ false
        → text_eq (code_of rate) code ≡ false
    not_here e h = differ code (code_of rate) (ap (λ c. text_eq c (code_of rate)) (sym e) ∙ h)

pub upsert_all-stored :
    (code : Text) (now : Instant) (rates : List ExchangeRate) (rows : List RateRecord)
    → Distinct rates
    → stored code (upsert_all now rates rows)
      ≡ first_of (find (is_code code) rates) (stored code rows)
unfolding upsert_all Distinct
upsert_all-stored code now [] rows d = refl
upsert_all-stored code now (rate ∷ rates) rows (apart, d) =
    upsert_all-stored code now rates (upsert now rows rate) d
    ∙ (ap (first_of (find (is_code code) rates)) (upsert-stored code now rows rate)
        ∙ go (is_code code rate) refl)
  where
    go :
        (k : Bool)
        → is_code code rate ≡ k
        → first_of (find (is_code code) rates) (if k then some rate else stored code rows)
          ≡ first_of (if k then some rate else find (is_code code) rates) (stored code rows)
    go false e = refl
    go true e =
        ap (λ o. first_of o (some rate))
          (subst (λ c. find (is_code c) rates ≡ none) (is_code→eq code rate e) apart)
