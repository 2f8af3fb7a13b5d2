-- ===== src/Domain/Draft/Lifecycle.antt =====
-- src/mintflow/domain/capture/draft.py: the methods that start a draft and change its state.
use mint_flow.Prelude.{ℕ, Bool, none, some, is_some, ◌&&◌, if◌then◌else◌}
use mint_flow.Prelude.Datetime.{Datetime, astimezone_utc}
use mint_flow.Prelude.Result.{Result, ok, ◌>>=◌, ◌>>◌, require}
use mint_flow.Domain.Errors.{
  ValueError, not_collecting, not_confirmable, not_cancellable, not_expirable, require_aware,
}
use mint_flow.Domain.Draft.{
  CaptureSource, telegram_receipt, collecting, awaiting_recognition, ready_for_review, confirmed,
  cancelled, expired, is_open, is_collecting, is_awaiting, is_ready, CaptureDraft, ensure_owner,
}

unfoldable pub start : ℕ → ℕ → CaptureSource → Datetime → Result ValueError CaptureDraft
start fresh owner_id source now = do
  require_aware now
  let created_at = astimezone_utc now
  ok (record {
    id = fresh;
    owner_id = owner_id;
    source = source;
    state = collecting;
    revision = 0;
    amount = none;
    amount_source = none;
    transaction_date = none;
    transaction_date_source = none;
    merchant = none;
    merchant_source = none;
    category_key = none;
    category_key_source = none;
    note = none;
    expense_id = none;
    created_at = created_at;
    modified_at = created_at;
    confirmed_at = none;
    receipt_id = none;
    recognition_result_id = none;
  })

unfoldable pub start_from_receipt : ℕ → ℕ → ℕ → Datetime → Result ValueError CaptureDraft
unfolding start
start_from_receipt fresh owner_id receipt_id now = do
  draft ← start fresh owner_id telegram_receipt now
  ok (record draft { state = awaiting_recognition; receipt_id = some receipt_id })

unfoldable pub continue_manually : CaptureDraft → ℕ → Datetime → Result ValueError CaptureDraft
continue_manually d caller_id now = do
  ensure_owner d caller_id
  require_aware now
  ok (
      if is_awaiting d.state
      then record d { state = collecting; modified_at = astimezone_utc now }
      else d)

unfoldable pub mark_ready_for_review : CaptureDraft → ℕ → Datetime → Result ValueError CaptureDraft
mark_ready_for_review d caller_id now = do
  ensure_owner d caller_id
  require (is_collecting d.state) not_collecting
  require_aware now
  ok (record d { state = ready_for_review; modified_at = astimezone_utc now })

abbrev pub is_confirmable : CaptureDraft → Bool
is_confirmable d = is_ready d.state && (is_some d.amount && is_some d.transaction_date)

unfoldable pub confirm : CaptureDraft → ℕ → ℕ → Datetime → Result ValueError CaptureDraft
confirm d caller_id expense_id now = do
  ensure_owner d caller_id
  require (is_confirmable d) not_confirmable
  require_aware now
  let confirmed_at = astimezone_utc now
  ok (record d {
    state = confirmed;
    expense_id = some expense_id;
    confirmed_at = some confirmed_at;
    modified_at = confirmed_at;
  })

unfoldable pub cancel : CaptureDraft → ℕ → Datetime → Result ValueError CaptureDraft
cancel d caller_id now = do
  ensure_owner d caller_id
  require (is_open d.state) not_cancellable
  require_aware now
  ok (record d { state = cancelled; modified_at = astimezone_utc now })

-- no owner check: the system expires a draft
unfoldable pub expire : CaptureDraft → Datetime → Result ValueError CaptureDraft
expire d now = do
  require (is_open d.state) not_expirable
  require_aware now
  ok (record d { state = expired; modified_at = astimezone_utc now })
