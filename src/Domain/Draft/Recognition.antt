-- ===== src/Domain/Draft/Recognition.antt =====
-- src/mintflow/domain/capture/draft.py: `apply_recognition`.
use mint_flow.Prelude.{
  ◌≡◌, true, arith, ℕ, ◌+◌, Bool, false, Option, none, some, ◌==◌, is_none, is_some, not, ◌&&◌,
  ◌||◌, if◌then◌else◌,
}
use mint_flow.Prelude.Text.{Text, Unicode}
use mint_flow.Prelude.Datetime.{Datetime, astimezone_utc}
use mint_flow.Prelude.Result.{Result, ok, err, ◌>>◌, require, raise_if}
use mint_flow.Domain.Errors.{
  ValueError, foreign_result, naive_datetime, not_editable, require_aware,
}
use mint_flow.Domain.Money.{Money}
use mint_flow.Domain.Values.{TransactionDate, MerchantName}
use mint_flow.Domain.Category.{require_stable_key}
use mint_flow.Domain.Receipt.{RecognitionResult}
use mint_flow.Domain.Draft.{
  CaptureDraftState, collecting, ready_for_review, recognition, default, is_awaiting, may_fill,
  DraftFieldSource, is_open, CaptureDraft, ensure_editable,
}

-- The four conditional replacements. `draft = replace(draft, …)` under an `if` replaces the same
-- fields in both branches here, by their old values where the test fails.
module _ {A : Type 0} where
  -- `value is not None and source in _RECOGNITION_MAY_FILL`
  abbrev pub fills : Option A → Option DraftFieldSource → Bool
  fills value source = is_some value && may_fill source

  abbrev pub filled : Option A → Option DraftFieldSource → Option A → Option A
  filled value source old = if fills value source then value else old

  abbrev pub filled_source : Option A → Option DraftFieldSource → Option DraftFieldSource
  filled_source value source = if fills value source then some recognition else source

abbrev fill_amount : Option Money → CaptureDraft → CaptureDraft
fill_amount total d = record d {
  amount = filled total d.amount_source d.amount;
  amount_source = filled_source total d.amount_source;
}

abbrev fill_date : Option TransactionDate → CaptureDraft → CaptureDraft
fill_date date d = record d {
  transaction_date = filled date d.transaction_date_source d.transaction_date;
  transaction_date_source = filled_source date d.transaction_date_source;
}

abbrev fill_merchant : Option MerchantName → CaptureDraft → CaptureDraft
fill_merchant merchant d = record d {
  merchant = filled merchant d.merchant_source d.merchant;
  merchant_source = filled_source merchant d.merchant_source;
}

abbrev fill_category : Text → CaptureDraft → CaptureDraft
fill_category fallback d = record d {
  category_key = if is_none d.category_key then some fallback else d.category_key;
  category_key_source = if is_none d.category_key then some default else d.category_key_source;
}

abbrev state_after_recognition : CaptureDraft → CaptureDraftState
state_after_recognition d =
    if is_awaiting d.state
    then (if is_some d.amount && is_some d.transaction_date then ready_for_review else collecting)
    else d.state

-- `result.receipt_id != self.receipt_id`
abbrev is_receipt : Option ℕ → ℕ → Bool
is_receipt none receipt_id = false
is_receipt (some r) receipt_id = receipt_id == r

-- the draft with the result's values filled in, and what `apply_recognition` returns of it
abbrev pub fill : CaptureDraft → RecognitionResult → Text → CaptureDraft
fill d result fallback =
    fill_category fallback (
      fill_merchant result.merchant
        (fill_date result.transaction_date (fill_amount result.total d)))

abbrev pub recognized_draft : CaptureDraft → RecognitionResult → Text → Datetime → CaptureDraft
recognized_draft d result fallback now =
    let draft = fill d result fallback in
    record draft {
      state = state_after_recognition draft;
      recognition_result_id = some result.id;
      revision = d.revision + 1;
      modified_at = astimezone_utc now;
    }

unfoldable pub apply_recognition :
    ⦃u : Unicode⦄
    → CaptureDraft
    → RecognitionResult
    → Text
    → Datetime
    → Result ValueError CaptureDraft
apply_recognition d result fallback now = do
  require_aware now
  raise_if (not (result.owner_id == d.owner_id) || not (is_receipt d.receipt_id result.receipt_id))
      foreign_result
  ensure_editable d
  require_stable_key fallback
  ok (recognized_draft d result fallback now)

-- What a successful call has checked, and what it returns.
module _ ⦃u : Unicode⦄ {x y : CaptureDraft} where
  checks :
      (aware foreign editable : Bool) (stable : Result ValueError (Unit {0}))
      → (require aware naive_datetime
          >> (raise_if foreign foreign_result
              >> (require editable not_editable >> (stable >> ok x))))
        ≡ ok y
      → (foreign ≡ false) × (editable ≡ true) × (y ≡ x)
  checks true false true (ok tt) e = ground arith
  checks true false true (err b) e = ground arith
  checks true false false s e = cc
  checks true true o s e = cc
  checks false f o s e = cc

pub apply_recognition-eq-ok :
    ⦃u : Unicode⦄ (d : CaptureDraft) {d' : CaptureDraft} (result : RecognitionResult)
    (fallback : Text) (now : Datetime)
    → apply_recognition d result fallback now ≡ ok d'
    → (result.owner_id ≡ d.owner_id)
      × (d.receipt_id ≡ some result.receipt_id)
      × (is_open d.state ≡ true)
      × (d' ≡ recognized_draft d result fallback now)
unfolding apply_recognition
apply_recognition-eq-ok d result fallback now e =
    let c = checks _ _ _ _ e in (ground arith, ground arith, c.1, c.2)
