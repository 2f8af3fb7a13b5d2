-- ===== src/Domain/Draft/Invariant.antt =====
-- What holds of every draft that the methods of src/mintflow/domain/capture/draft.py produce.
use mint_flow.Prelude.{ℕ, ◌≡◌, Bool, true, false, Option, some, is_some, arith}
use mint_flow.Prelude.Text.{Unicode}
use mint_flow.Prelude.Datetime.{Datetime}
use mint_flow.Prelude.Result.{ok}
use mint_flow.Prelude.Text.{Text}
use mint_flow.Domain.Money.{Money}
use mint_flow.Domain.Values.{TransactionDate, MerchantName}
use mint_flow.Domain.Receipt.{RecognitionResult}
use mint_flow.Domain.Draft.{
  CaptureDraft, DraftFieldSource, recognition, is_open, is_awaiting, is_confirmed,
}
use mint_flow.Domain.Draft.Edit
use mint_flow.Domain.Draft.Lifecycle
use mint_flow.Domain.Draft.Recognition.{
  apply_recognition, recognized_draft, apply_recognition-eq-ok,
}
use mint_flow.Domain.Draft.Steps.{
  Actor, Step, Started, start, start_from_receipt, Reach, here, next,
}

abbrev from_recognition : Option DraftFieldSource → Bool
from_recognition (some recognition) = true
from_recognition _ = false

-- A field has a value exactly when it has a provenance. A draft names its expense and the time of
-- its confirmation exactly when it is confirmed, and then it has an amount and a date. Only a draft
-- with a receipt waits for recognition, and a recognized value comes with the result it is from.
pub record IsWellFormed (d : CaptureDraft) : Type 0 where
  pub amount : is_some d.amount ≡ is_some d.amount_source
  pub date : is_some d.transaction_date ≡ is_some d.transaction_date_source
  pub merchant : is_some d.merchant ≡ is_some d.merchant_source
  pub category : is_some d.category_key ≡ is_some d.category_key_source
  pub expense : is_confirmed d.state ≡ is_some d.expense_id
  pub confirmed_at : is_confirmed d.state ≡ is_some d.confirmed_at
  pub complete :
      is_confirmed d.state ≡ true → (is_some d.amount ≡ true) × (is_some d.transaction_date ≡ true)
  pub waiting : is_awaiting d.state ≡ true → is_some d.receipt_id ≡ true
  pub recognized : is_some d.recognition_result_id ≡ true → is_some d.receipt_id ≡ true
  pub amount_from : from_recognition d.amount_source ≡ true → is_some d.recognition_result_id ≡ true
  pub date_from :
      from_recognition d.transaction_date_source ≡ true → is_some d.recognition_result_id ≡ true
  pub merchant_from :
      from_recognition d.merchant_source ≡ true → is_some d.recognition_result_id ≡ true

Started-IsWellFormed : {d : CaptureDraft} → Started d → IsWellFormed d
unfolding Lifecycle.start Lifecycle.start_from_receipt
Started-IsWellFormed (start fresh owner source now e) = ground arith
Started-IsWellFormed (start_from_receipt fresh owner receipt now e) = ground arith

-- Filling the fields of an open draft keeps it well formed.
recognized-IsWellFormed :
    (d : CaptureDraft) (result : RecognitionResult) (fallback : Text) (now : Datetime)
    → is_open d.state ≡ true
    → is_some d.receipt_id ≡ true
    → IsWellFormed d
    → IsWellFormed (recognized_draft d result fallback now)
recognized-IsWellFormed d result fallback now o r h = record {
  amount = ground arith;
  date = ground arith;
  merchant = ground arith;
  category = ground arith;
  expense = ground arith;
  confirmed_at = ground arith;
  complete = ground arith;
  waiting = ground arith;
  recognized = ground arith;
  amount_from = ground arith;
  date_from = ground arith;
  merchant_from = ground arith;
}

module _ ⦃u : Unicode⦄ where
  apply_recognition-IsWellFormed :
      {d d' : CaptureDraft} (result : RecognitionResult) (fallback : Text) (now : Datetime)
      → apply_recognition d result fallback now ≡ ok d'
      → IsWellFormed d
      → IsWellFormed d'
  apply_recognition-IsWellFormed {d} result fallback now e h =
      let (_, receipt, opened, eq) = apply_recognition-eq-ok d result fallback now e in
      rw eq (recognized-IsWellFormed d result fallback now opened (ground arith) h)

  set_amount-IsWellFormed :
      (d : CaptureDraft) (c : ℕ) (amount : Money) (now : Datetime) (source : DraftFieldSource)
      {d' : CaptureDraft}
      → Edit.set_amount d c amount now source ≡ ok d'
      → IsWellFormed d
      → IsWellFormed d'
  unfolding Edit.set_amount
  set_amount-IsWellFormed d c amount now source e h = ground arith

  set_transaction_date-IsWellFormed :
      (d : CaptureDraft) (c : ℕ) (date : TransactionDate) (now : Datetime)
      (source : DraftFieldSource) {d' : CaptureDraft}
      → Edit.set_transaction_date d c date now source ≡ ok d'
      → IsWellFormed d
      → IsWellFormed d'
  unfolding Edit.set_transaction_date
  set_transaction_date-IsWellFormed d c date now source e h = ground arith

  set_merchant-IsWellFormed :
      (d : CaptureDraft) (c : ℕ) (merchant : MerchantName) (now : Datetime)
      (source : DraftFieldSource) {d' : CaptureDraft}
      → Edit.set_merchant d c merchant now source ≡ ok d'
      → IsWellFormed d
      → IsWellFormed d'
  unfolding Edit.set_merchant
  set_merchant-IsWellFormed d c merchant now source e h = ground arith

  set_category_key-IsWellFormed :
      (d : CaptureDraft) (c : ℕ) (key : Text) (now : Datetime) (source : DraftFieldSource)
      {d' : CaptureDraft}
      → Edit.set_category_key d c key now source ≡ ok d'
      → IsWellFormed d
      → IsWellFormed d'
  unfolding Edit.set_category_key
  set_category_key-IsWellFormed d c key now source e h = ground arith

  set_note-IsWellFormed :
      (d : CaptureDraft) (c : ℕ) (text : Option Text) (now : Datetime) {d' : CaptureDraft}
      → Edit.set_note d c text now ≡ ok d'
      → IsWellFormed d
      → IsWellFormed d'
  unfolding Edit.set_note
  set_note-IsWellFormed d c text now e h = ground arith

  continue_manually-IsWellFormed :
      (d : CaptureDraft) (c : ℕ) (now : Datetime) {d' : CaptureDraft}
      → Lifecycle.continue_manually d c now ≡ ok d'
      → IsWellFormed d
      → IsWellFormed d'
  unfolding Lifecycle.continue_manually
  continue_manually-IsWellFormed d c now e h = ground arith

  mark_ready_for_review-IsWellFormed :
      (d : CaptureDraft) (c : ℕ) (now : Datetime) {d' : CaptureDraft}
      → Lifecycle.mark_ready_for_review d c now ≡ ok d'
      → IsWellFormed d
      → IsWellFormed d'
  unfolding Lifecycle.mark_ready_for_review
  mark_ready_for_review-IsWellFormed d c now e h = ground arith

  confirm-IsWellFormed :
      (d : CaptureDraft) (c : ℕ) (expense_id : ℕ) (now : Datetime) {d' : CaptureDraft}
      → Lifecycle.confirm d c expense_id now ≡ ok d'
      → IsWellFormed d
      → IsWellFormed d'
  unfolding Lifecycle.confirm
  confirm-IsWellFormed d c expense_id now e h = ground arith

  cancel-IsWellFormed :
      (d : CaptureDraft) (c : ℕ) (now : Datetime) {d' : CaptureDraft}
      → Lifecycle.cancel d c now ≡ ok d'
      → IsWellFormed d
      → IsWellFormed d'
  unfolding Lifecycle.cancel
  cancel-IsWellFormed d c now e h = ground arith

  expire-IsWellFormed :
      (d : CaptureDraft) (now : Datetime) {d' : CaptureDraft}
      → Lifecycle.expire d now ≡ ok d'
      → IsWellFormed d
      → IsWellFormed d'
  unfolding Lifecycle.expire
  expire-IsWellFormed d now e h = ground arith

  pub Step-IsWellFormed :
      {a : Actor} {d d' : CaptureDraft} → Step a d d' → IsWellFormed d → IsWellFormed d'
  Step-IsWellFormed (Step.set_amount amount now source e) h =
      set_amount-IsWellFormed _ _ amount now source e h
  Step-IsWellFormed (Step.set_transaction_date date now source e) h =
      set_transaction_date-IsWellFormed _ _ date now source e h
  Step-IsWellFormed (Step.set_merchant merchant now source e) h =
      set_merchant-IsWellFormed _ _ merchant now source e h
  Step-IsWellFormed (Step.set_category_key key now source e) h =
      set_category_key-IsWellFormed _ _ key now source e h
  Step-IsWellFormed (Step.set_note text now e) h = set_note-IsWellFormed _ _ text now e h
  Step-IsWellFormed (Step.continue_manually now e) h = continue_manually-IsWellFormed _ _ now e h
  Step-IsWellFormed (Step.mark_ready_for_review now e) h =
      mark_ready_for_review-IsWellFormed _ _ now e h
  Step-IsWellFormed (Step.confirm expense_id now e) h = confirm-IsWellFormed _ _ expense_id now e h
  Step-IsWellFormed (Step.cancel now e) h = cancel-IsWellFormed _ _ now e h
  Step-IsWellFormed (Step.expire now e) h = expire-IsWellFormed _ now e h
  Step-IsWellFormed (Step.apply_recognition result fallback now e) h =
      apply_recognition-IsWellFormed result fallback now e h

  -- Every draft that the methods produce from a new one, in any order of successful calls, is well
  -- formed.
  pub Reach-IsWellFormed : {d e : CaptureDraft} → Started d → Reach d e → IsWellFormed e
  Reach-IsWellFormed s here = Started-IsWellFormed s
  Reach-IsWellFormed s (next r st) = Step-IsWellFormed st (Reach-IsWellFormed s r)
