-- ===== src/Domain/Draft/Outcome.antt =====
-- What `apply_recognition` and `confirm` of src/mintflow/domain/capture/draft.py do, on every branch.
use mint_flow.Prelude.{
  ℕ, ◌≡◌, refl, ◌⊎◌, ◌↔◌, true, Option, none, some, is_some, ◌&&◌, arith, if◌then◌else◌,
}
use mint_flow.Prelude.Datetime.{Datetime, is_aware, astimezone_utc}
use mint_flow.Prelude.Result.{ok}
use mint_flow.Prelude.Text.{Unicode, Text}
use mint_flow.Domain.Receipt.{RecognitionResult}
use mint_flow.Domain.Draft.{
  CaptureDraft, CaptureDraftState, DraftFieldSource, recognition, user, default, ready_for_review,
  collecting, awaiting_recognition, confirmed, cancelled, expired, is_awaiting, is_ready,
}
use mint_flow.Domain.Money.{Money}
use mint_flow.Domain.Values.{TransactionDate}
use mint_flow.Domain.Draft.Lifecycle.{confirm, is_confirmable}
use mint_flow.Domain.Draft.Recognition.{
  apply_recognition, apply_recognition-eq-ok, filled, filled_source,
}
use mint_flow.Domain.Draft.Steps.{system, Step}
use mint_flow.Domain.Draft.Lifecycle

-- How a field stands after a recognition result: a value that the user or an earlier result
-- supplied stays, a field that the result does not know stays, and an empty or defaulted field
-- takes the result's value.
pub record Filled {A : Type 0} (value old : Option A) (source : Option DraftFieldSource)
    (new : Option A) (new_source : Option DraftFieldSource) : Type 0 where
  pub user_wins : source ≡ some user → (new ≡ old) × (new_source ≡ some user)
  pub first_wins : source ≡ some recognition → (new ≡ old) × (new_source ≡ some recognition)
  pub unknown : value ≡ none → (new ≡ old) × (new_source ≡ source)
  pub taken :
      is_some value ≡ true
      → (source ≡ none) ⊎ (source ≡ some default)
      → (new ≡ value) × (new_source ≡ some recognition)

filled-Filled :
    {A : Type 0} (value old : Option A) (source : Option DraftFieldSource)
    → Filled value old source (filled value source old) (filled_source value source)
filled-Filled value old source = record {
  user_wins = λ h. ground arith;
  first_wins = λ h. ground arith;
  unknown = λ h. ground arith;
  taken = λ h k. ground arith;
}

pub record Recognized (d : CaptureDraft) (result : RecognitionResult) (fallback : Text)
    (e : CaptureDraft) : Type 0 where
  pub amount : Filled result.total d.amount d.amount_source e.amount e.amount_source
  pub date :
      Filled result.transaction_date d.transaction_date d.transaction_date_source e.transaction_date
        e.transaction_date_source
  pub merchant : Filled result.merchant d.merchant d.merchant_source e.merchant e.merchant_source
  pub category : e.category_key ≡ (if is_some d.category_key then d.category_key else some fallback)
  pub note : e.note ≡ d.note
  pub state : e.state ≡ (
      if is_awaiting d.state
      then (if is_some e.amount && is_some e.transaction_date then ready_for_review else collecting)
      else d.state)
  pub from_result : e.recognition_result_id ≡ some result.id

module _ ⦃u : Unicode⦄ where
  -- A recognition result that is applied fills exactly the fields that are empty or defaulted and
  -- that it knows; a value of the user or of an earlier result stays. A missing category becomes
  -- the fallback, the note stays, and a draft that waited goes to review exactly when amount and
  -- date are then known, and to collecting otherwise.
  pub apply_recognition-Recognized :
      (d : CaptureDraft) {e : CaptureDraft} (result : RecognitionResult) (fallback : Text)
      (now : Datetime)
      → apply_recognition d result fallback now ≡ ok e
      → Recognized d result fallback e
  apply_recognition-Recognized d result fallback now h =
      let (_, _, _, eq) = apply_recognition-eq-ok d result fallback now h in
      rw eq (record {
        amount = filled-Filled result.total d.amount d.amount_source;
        date = filled-Filled result.transaction_date d.transaction_date d.transaction_date_source;
        merchant = filled-Filled result.merchant d.merchant d.merchant_source;
        category = ground arith;
        note = ground arith;
        state = ground arith;
        from_result = ground arith;
      })

  -- No call of the system touches an amount that the user has supplied.
  pub user_amount_stays :
      {d e : CaptureDraft}
      → Step system d e
      → d.amount_source ≡ some user
      → (e.amount ≡ d.amount) × (e.amount_source ≡ some user)
  unfolding Lifecycle.expire
  user_amount_stays (Step.expire now e) h = ground arith
  user_amount_stays (Step.apply_recognition {d = d} result fallback now e) h =
      (apply_recognition-Recognized d result fallback now e).amount.user_wins h

-- who may confirm which draft, and when
pub record MayConfirm (d : CaptureDraft) (c : ℕ) (now : Datetime) : Type 0 where
  pub by_owner : c ≡ d.owner_id
  pub in_review : d.state ≡ ready_for_review
  pub has_amount : (m : Money) × (d.amount ≡ some m)
  pub has_date : (t : TransactionDate) × (d.transaction_date ≡ some t)
  pub at_aware_time : is_aware now ≡ true

-- the draft, confirmed into the expense
abbrev pub confirmed_into : ℕ → Datetime → CaptureDraft → CaptureDraft
confirmed_into expense_id now d = record d {
  state = confirmed;
  expense_id = some expense_id;
  confirmed_at = some (astimezone_utc now);
  modified_at = astimezone_utc now;
}

is_ready→eq : (s : CaptureDraftState) → is_ready s ≡ true → s ≡ ready_for_review
is_ready→eq collecting h = cc
is_ready→eq awaiting_recognition h = cc
is_ready→eq ready_for_review h = refl
is_ready→eq confirmed h = cc
is_ready→eq cancelled h = cc
is_ready→eq expired h = cc

is_some→eq : {A : Type 0} (o : Option A) → is_some o ≡ true → (a : A) × (o ≡ some a)
is_some→eq none h = cc
is_some→eq (some a) h = (a, refl)

-- Confirmation succeeds exactly for the owner, on a draft in review that has an amount and a date,
-- at an aware time; and then the draft is confirmed into the given expense at that time, and is the
-- same in all other fields.
pub confirm_succeeds :
    (d : CaptureDraft) (c expense_id : ℕ) (now : Datetime) (e : CaptureDraft)
    → (confirm d c expense_id now ≡ ok e)
      ↔ (MayConfirm d c now × (e ≡ confirmed_into expense_id now d))
unfolding confirm
confirm_succeeds d c expense_id now e = (forth, back)
  where
    forth :
        confirm d c expense_id now ≡ ok e
        → MayConfirm d c now × (e ≡ confirmed_into expense_id now d)
    forth h = (
      record {
        by_owner = ground arith;
        in_review = is_ready→eq d.state (ground arith);
        has_amount = is_some→eq d.amount (ground arith);
        has_date = is_some→eq d.transaction_date (ground arith);
        at_aware_time = ground arith;
      },
      ground arith,
    )

    back :
        MayConfirm d c now × (e ≡ confirmed_into expense_id now d)
        → confirm d c expense_id now ≡ ok e
    back (may, same) =
        let owner = may.by_owner in
        let review = may.in_review in
        let (m, amount) = may.has_amount in
        let (t, date) = may.has_date in
        let aware = may.at_aware_time in rw (same, review, amount, date, aware) (ground arith)
