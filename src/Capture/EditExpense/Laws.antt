-- ===== src/Capture/EditExpense/Laws.antt =====
-- What the change records of `EditExpense` say: exactly the fields whose values differ.
use mathlib.Core.Path.{subst}
use mint_flow.Prelude.{
  ◌≡◌, refl, ◌∙◌, Bool, true, false, Option, none, some, List, [], ◌∷◌, ◌==◌, find, Bool-cases, inl,
  inr, arith, if◌then◌else◌,
}
use mint_flow.Prelude.Result.{ok}
use mint_flow.Capture.Changes.{
  ExpenseField, ExpenseFieldChange, amount_minor_units, currency, transaction_date, merchant,
  category_key, note, all_fields, place, expense_field_value, value_eq, make_change, check_value,
}
use mint_flow.Capture.EditExpense.{changes_between}
use mint_flow.Domain.Expense.{Expense}

-- the change that a record lists for a field
abbrev pub change_of : ExpenseField → List ExpenseFieldChange → Option ExpenseFieldChange
change_of f = find (λ (c : ExpenseFieldChange). place f == place c.field)

-- the change of a field between two expenses, if its values differ
abbrev pub difference : Expense → Expense → ExpenseField → Option ExpenseFieldChange
difference before after f =
    if value_eq (expense_field_value before f) (expense_field_value after f)
    then none
    else some (record {
      field = f;
      old = expense_field_value before f;
      new = expense_field_value after f;
    })

abbrev is_listed : ExpenseField → List ExpenseField → Bool
is_listed f [] = false
is_listed f (g ∷ fields) = if place f == place g then true else is_listed f fields

-- The values of an expense fit their fields, so a change of values is always accepted.
check_value-field :
    (e : Expense) (f : ExpenseField) → check_value f (expense_field_value e f) ≡ true
unfolding expense_field_value check_value
check_value-field e amount_minor_units = refl
check_value-field e currency = refl
check_value-field e transaction_date = refl
check_value-field e merchant = ground arith
check_value-field e category_key = refl
check_value-field e note = ground arith

place_injective : (f g : ExpenseField) → (place f == place g) ≡ true → g ≡ f
place_injective f g h = ground arith

module _ (before after : Expense) where
  abbrev change_at : ExpenseField → ExpenseFieldChange
  change_at f = record {
    field = f;
    old = expense_field_value before f;
    new = expense_field_value after f;
  }

  abbrev differs : ExpenseField → Bool
  differs f = value_eq (expense_field_value before f) (expense_field_value after f)

  make_change-field :
      (f : ExpenseField)
      → differs f ≡ false
      → make_change f (expense_field_value before f) (expense_field_value after f)
        ≡ ok (change_at f)
  unfolding make_change
  make_change-field f h = ground (arith, check_value-field before f, check_value-field after f)

  -- the listed changes, one field further
  same_step :
      (f g : ExpenseField) (listed : Bool) {found : Option ExpenseFieldChange}
      → differs g ≡ true
      → found ≡ (if listed then difference before after f else none)
      → found ≡ (
          if (if place f == place g then true else listed) then difference before after f else none)
  same_step f g listed same h = elim (Bool-cases (place f == place g)) [
    | inl e ↦
        let at_f = subst (λ k. differs k ≡ true) (place_injective f g e) same in
        rw (e, at_f) (h ∙ at_none listed at_f)
    | inr e ↦ rw e h
  ]
    where
      at_none :
          (b : Bool) → differs f ≡ true → (if b then difference before after f else none) ≡ none
      at_none true p = rw p
      at_none false p = refl

  differ_step :
      (f g : ExpenseField) (listed : Bool) {found : Option ExpenseFieldChange}
      → differs g ≡ false
      → found ≡ (if listed then difference before after f else none)
      → (if place f == place g then some (change_at g) else found) ≡ (
          if (if place f == place g then true else listed) then difference before after f else none)
  differ_step f g listed differ h = elim (Bool-cases (place f == place g)) [
    | inl e ↦ rw e (
        subst (λ k. some (change_at g) ≡ difference before after k) (place_injective f g e)
          (rw differ))
    | inr e ↦ rw e h
  ]

  -- Whatever fields are compared, the comparison does not raise, and it lists for each of them the
  -- old and the new value exactly if they differ.
  listed_changes :
      (fields : List ExpenseField)
      → (cs : List ExpenseFieldChange) × (changes_between fields before after ≡ ok cs)
        × ((f : ExpenseField)
            → change_of f cs ≡ (if is_listed f fields then difference before after f else none))
  unfolding changes_between
  listed_changes [] = ([], refl, λ f. refl)
  listed_changes (g ∷ fields) =
      let (cs, ih, lists) = listed_changes fields in
      elim (Bool-cases (differs g)) [
        | inl same ↦ (cs, rw (same, ih), λ f. same_step f g (is_listed f fields) same (lists f))
        | inr differ ↦ (
          change_at g ∷ cs,
          rw (differ, make_change-field g differ, ih),
          λ f. differ_step f g (is_listed f fields) differ (lists f),
        )
      ]

all_listed : (f : ExpenseField) → is_listed f all_fields ≡ true
all_listed amount_minor_units = refl
all_listed f = ground arith

-- Comparing two versions of an expense never raises, and gives for every field the old and the new
-- value if they differ, and nothing if they are equal.
pub changes_between-lists :
    (before after : Expense)
    → (cs : List ExpenseFieldChange) × (changes_between all_fields before after ≡ ok cs)
      × ((f : ExpenseField) → change_of f cs ≡ difference before after f)
changes_between-lists before after =
    let (cs, total, lists) = listed_changes before after all_fields in
    (
      cs,
      total,
      λ f.
          subst (λ b. change_of f cs ≡ (if b then difference before after f else none))
            (all_listed f) (lists f),
    )
