-- ===== src/Rates/Refresh.antt =====
-- What a refresh chooses: of each wanted currency the rate of the first source that has one.
use mint_flow.Prelude.{
  ◌≡◌, refl, sym, ◌∙◌, ap, inl, inr, Bool, true, false, ◌&&◌, Bool-cases, Option, none, some, List,
  [], ◌∷◌, ◌++◌, find, is_none, if◌then◌else◌,
}
use mathlib.Core.Path.{subst}
use mint_flow.Prelude.Text.{Text, text_eq, text_eq→eq, text_eq_refl}
use mint_flow.Rates.{
  ExchangeRate, Source, RateRecord, code_of, wanted, has_text, is_code, choose, choose_all,
}

module _ {ℓ} {A : Type ℓ} where
  -- the first of two options that is there
  abbrev pub first_of : Option A → Option A → Option A
  first_of none b = b
  first_of (some a) b = some a

  first_of_assoc : (a b c : Option A) → first_of (first_of a b) c ≡ first_of a (first_of b c)
  first_of_assoc none b c = refl
  first_of_assoc (some a) b c = refl

  pub first_of-none : (a : Option A) → first_of a none ≡ a
  first_of-none none = refl
  first_of-none (some a) = refl

  pub find-append :
      (p : A → Bool) (xs ys : List A) → find p (xs ++ ys) ≡ first_of (find p xs) (find p ys)
  find-append p [] ys = refl
  find-append p (x ∷ xs) ys =
      let ih = find-append p xs ys in
      elim (Bool-cases (p x)) [ inl e ↦ rw e refl | inr e ↦ rw e ih ]

-- the rates that the sources publish, one source after another
abbrev pub published : List Source → List ExchangeRate
published [] = []
published (source ∷ sources) = elim source.fetch [
  | none ↦ published sources
  | some rates ↦ rates ++ published sources
]

-- a rate of the code, if the code is wanted
abbrev pub is_wanted : Text → ExchangeRate → Bool
is_wanted code rate = has_text code wanted && is_code code rate

abbrev pub rate_of : Option RateRecord → Option ExchangeRate
rate_of none = none
rate_of (some row) = some row.rate

abbrev pub first_row : Text → List RateRecord → Option RateRecord
first_row code rows = find (λ (row : RateRecord). text_eq row.code code) rows

-- the stored rate of a code
abbrev pub stored : Text → List RateRecord → Option ExchangeRate
stored code rows = rate_of (first_row code rows)

-- `chosen` after one rate of a source
abbrev pub next_chosen : List ExchangeRate → ExchangeRate → List ExchangeRate
next_chosen chosen rate =
    if has_text (code_of rate) wanted && is_none (find (is_code (code_of rate)) chosen)
    then chosen ++ rate ∷ []
    else chosen

abbrev given : Bool → ExchangeRate → Option ExchangeRate → Option ExchangeRate
given b rate rest = if b then some rate else rest

pub is_code→eq :
    (code : Text) (rate : ExchangeRate) → is_code code rate ≡ true → code_of rate ≡ code
unfolding is_code
is_code→eq code rate k = text_eq→eq (code_of rate) code k

own_code_lem : (rate : ExchangeRate) → is_code (code_of rate) rate ≡ true
unfolding is_code
own_code_lem rate = text_eq_refl (code_of rate)

own_code :
    (chosen : List ExchangeRate) (rate : ExchangeRate) (w : Bool) (found : Option ExchangeRate)
    → find (is_code (code_of rate)) chosen ≡ found
    → find (is_code (code_of rate)) (if w && is_none found then chosen ++ rate ∷ [] else chosen)
      ≡ first_of found (given (w && is_code (code_of rate) rate) rate none)
own_code chosen rate false none e = e
own_code chosen rate false (some r) e = e
own_code chosen rate true (some r) e = e
own_code chosen rate true none e =
    find-append (is_code (code_of rate)) chosen (rate ∷ []) ∙ rw (e, own_code_lem rate) refl

other_code :
    (code : Text) (chosen : List ExchangeRate) (rate : ExchangeRate) (w add : Bool)
    → is_code code rate ≡ false
    → find (is_code code) (if add then chosen ++ rate ∷ [] else chosen)
      ≡ first_of (find (is_code code) chosen) (given (w && is_code code rate) rate none)
other_code code chosen rate w false k =
    sym (first_of-none _) ∙ ap (first_of (find (is_code code) chosen)) (not_given w)
  where
    not_given : (w : Bool) → none ≡ given (w && is_code code rate) rate none
    not_given true = rw k refl
    not_given false = refl
other_code code chosen rate w true k =
    find-append (is_code code) chosen (rate ∷ [])
    ∙ ap (first_of (find (is_code code) chosen)) (not_given w)
  where
    not_given :
        (w : Bool) → given (is_code code rate) rate none ≡ given (w && is_code code rate) rate none
    not_given true = refl
    not_given false = rw k refl

next_chosen-found :
    (code : Text) (chosen : List ExchangeRate) (rate : ExchangeRate)
    → find (is_code code) (next_chosen chosen rate)
      ≡ first_of (find (is_code code) chosen) (given (is_wanted code rate) rate none)
next_chosen-found code chosen rate = elim (Bool-cases (is_code code rate)) [
  | inl k ↦
      subst
        (λ c.
          find (is_code c) (next_chosen chosen rate)
          ≡ first_of (find (is_code c) chosen) (given (is_wanted c rate) rate none))
        (is_code→eq code rate k)
        (own_code chosen rate (has_text (code_of rate) wanted)
          (find (is_code (code_of rate)) chosen) refl)
  | inr k ↦ other_code code chosen rate _ _ k
]

choose-found :
    (code : Text) (chosen rates : List ExchangeRate)
    → find (is_code code) (choose chosen rates)
      ≡ first_of (find (is_code code) chosen) (find (is_wanted code) rates)
unfolding choose
choose-found code chosen [] = sym (first_of-none _)
choose-found code chosen (rate ∷ rates) =
    choose-found code (next_chosen chosen rate) rates
    ∙ (ap (λ o. first_of o (find (is_wanted code) rates)) (next_chosen-found code chosen rate)
        ∙ settle (find (is_code code) chosen) (is_wanted code rate))
  where
    settle :
        (a : Option ExchangeRate) (b : Bool)
        → first_of (first_of a (given b rate none)) (find (is_wanted code) rates)
          ≡ first_of a (given b rate (find (is_wanted code) rates))
    settle none true = refl
    settle none false = refl
    settle (some r) b = refl

pub choose_all-found :
    (code : Text) (chosen : List ExchangeRate) (sources : List Source)
    → find (is_code code) (choose_all chosen sources)
      ≡ first_of (find (is_code code) chosen) (find (is_wanted code) (published sources))
unfolding choose_all
choose_all-found code chosen [] = sym (first_of-none _)
choose_all-found code chosen (source ∷ sources) =
    go source.fetch (λ c. choose_all-found code c sources)
  where
    go :
        (answer : Option (List ExchangeRate))
        → ((c : List ExchangeRate)
            → find (is_code code) (choose_all c sources)
              ≡ first_of (find (is_code code) c) (find (is_wanted code) (published sources)))
        → find
            (is_code code)
            (choose_all (elim answer [ none ↦ chosen | some rates ↦ choose chosen rates ]) sources)
          ≡ first_of (find (is_code code) chosen) (
              find (is_wanted code) (elim answer [
                | none ↦ published sources
                | some rates ↦ rates ++ published sources
              ]))
    go none ih = ih chosen
    go (some rates) ih =
        ih (choose chosen rates)
        ∙ (ap (λ o. first_of o (find (is_wanted code) (published sources)))
              (choose-found code chosen rates)
            ∙ (first_of_assoc (find (is_code code) chosen) (find (is_wanted code) rates) _
                ∙ ap (first_of (find (is_code code) chosen))
                    (sym (find-append (is_wanted code) rates (published sources)))))
