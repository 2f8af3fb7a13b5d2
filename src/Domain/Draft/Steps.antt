-- ===== src/Domain/Draft/Steps.antt =====
-- The calls that change a draft, as a step relation: one constructor for each method of
-- src/mintflow/domain/capture/draft.py that returns a draft, holding when the call does not raise.
use mint_flow.Prelude.{ℕ, ◌≡◌, Option}
use mint_flow.Prelude.Text.{Text, Unicode}
use mint_flow.Prelude.Datetime.{Datetime}
use mint_flow.Prelude.Result.{ok}
use mint_flow.Domain.Money.{Money}
use mint_flow.Domain.Values.{TransactionDate, MerchantName}
use mint_flow.Domain.Receipt.{RecognitionResult}
use mint_flow.Domain.Draft.{CaptureSource, DraftFieldSource, CaptureDraft}
use mint_flow.Domain.Draft.Edit
use mint_flow.Domain.Draft.Lifecycle
use mint_flow.Domain.Draft.Recognition

-- who makes a call: a caller, whose id is an argument of it, or the system itself
pub data Actor : Type 0 where
  caller : ℕ → Actor
  system : Actor

pub data Step ⦃u : Unicode⦄ : Actor → CaptureDraft → CaptureDraft → Type 0 where
  set_amount :
      {c : ℕ} {d d' : CaptureDraft} (amount : Money) (now : Datetime) (source : DraftFieldSource)
      → Edit.set_amount d c amount now source ≡ ok d'
      → Step (caller c) d d'
  set_transaction_date :
      {c : ℕ} {d d' : CaptureDraft} (date : TransactionDate) (now : Datetime)
      (source : DraftFieldSource)
      → Edit.set_transaction_date d c date now source ≡ ok d'
      → Step (caller c) d d'
  set_merchant :
      {c : ℕ} {d d' : CaptureDraft} (merchant : MerchantName) (now : Datetime)
      (source : DraftFieldSource)
      → Edit.set_merchant d c merchant now source ≡ ok d'
      → Step (caller c) d d'
  set_category_key :
      {c : ℕ} {d d' : CaptureDraft} (key : Text) (now : Datetime) (source : DraftFieldSource)
      → Edit.set_category_key d c key now source ≡ ok d'
      → Step (caller c) d d'
  set_note :
      {c : ℕ} {d d' : CaptureDraft} (note : Option Text) (now : Datetime)
      → Edit.set_note d c note now ≡ ok d'
      → Step (caller c) d d'
  continue_manually :
      {c : ℕ} {d d' : CaptureDraft} (now : Datetime)
      → Lifecycle.continue_manually d c now ≡ ok d'
      → Step (caller c) d d'
  mark_ready_for_review :
      {c : ℕ} {d d' : CaptureDraft} (now : Datetime)
      → Lifecycle.mark_ready_for_review d c now ≡ ok d'
      → Step (caller c) d d'
  confirm :
      {c : ℕ} {d d' : CaptureDraft} (expense_id : ℕ) (now : Datetime)
      → Lifecycle.confirm d c expense_id now ≡ ok d'
      → Step (caller c) d d'
  cancel :
      {c : ℕ} {d d' : CaptureDraft} (now : Datetime)
      → Lifecycle.cancel d c now ≡ ok d'
      → Step (caller c) d d'
  expire :
      {d d' : CaptureDraft} (now : Datetime) → Lifecycle.expire d now ≡ ok d' → Step system d d'
  apply_recognition :
      {d d' : CaptureDraft} (result : RecognitionResult) (fallback : Text) (now : Datetime)
      → Recognition.apply_recognition d result fallback now ≡ ok d'
      → Step system d d'

pub data Started : CaptureDraft → Type 0 where
  start :
      {d : CaptureDraft} (fresh owner : ℕ) (source : CaptureSource) (now : Datetime)
      → Lifecycle.start fresh owner source now ≡ ok d
      → Started d
  start_from_receipt :
      {d : CaptureDraft} (fresh owner receipt : ℕ) (now : Datetime)
      → Lifecycle.start_from_receipt fresh owner receipt now ≡ ok d
      → Started d

pub data Reach ⦃u : Unicode⦄ (d : CaptureDraft) : CaptureDraft → Type 0 where
  here : Reach d d
  next : {a : Actor} {e f : CaptureDraft} → Reach d e → Step a e f → Reach d f
