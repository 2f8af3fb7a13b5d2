-- ===== src/Domain/Draft.antt =====
-- src/mintflow/domain/capture/draft.py and enums.py: the capture draft, its states and the checks
-- that its methods share. The methods are in the children: `Edit` sets fields, `Lifecycle` moves
-- between states, `Recognition` applies a recognition result.
pub mod Edit
pub mod Lifecycle
pub mod Recognition
pub mod Steps
pub mod Invariant
pub mod Frame
pub mod Outcome
use mint_flow.Prelude.{
  ℕ, ◌+◌, Bool, true, false, Option, none, some, ◌==◌, is_none, is_some, or_else, not, ◌&&◌, ◌||◌,
  if◌then◌else◌,
}
use mint_flow.Prelude.Text.{Text, Unicode}
use mint_flow.Prelude.Datetime.{Datetime, Instant, astimezone_utc}
use mint_flow.Prelude.Result.{Result, ok, err, ◌>>=◌, ◌>>◌, require, raise_if}
use mint_flow.Domain.Errors.{
  ValueError, not_owner, not_editable, recognition_provenance, foreign_result, not_collecting,
  not_confirmable, not_cancellable, not_expirable, require_aware,
}
use mint_flow.Domain.Money.{Money}
use mint_flow.Domain.Values.{TransactionDate, MerchantName}
use mint_flow.Domain.Category.{require_stable_key}
use mint_flow.Domain.Receipt.{RecognitionResult}

pub data CaptureSource : Type 0 where
  telegram_manual telegram_receipt web_manual : CaptureSource

pub data CaptureDraftState : Type 0 where
  collecting awaiting_recognition ready_for_review confirmed cancelled expired : CaptureDraftState

pub data DraftFieldSource : Type 0 where
  recognition user default : DraftFieldSource

-- `state in _OPEN_STATES`
abbrev pub is_open : CaptureDraftState → Bool
is_open collecting = true
is_open awaiting_recognition = true
is_open ready_for_review = true
is_open _ = false

abbrev pub is_collecting : CaptureDraftState → Bool
is_collecting collecting = true
is_collecting _ = false

abbrev pub is_awaiting : CaptureDraftState → Bool
is_awaiting awaiting_recognition = true
is_awaiting _ = false

abbrev pub is_ready : CaptureDraftState → Bool
is_ready ready_for_review = true
is_ready _ = false

abbrev pub is_confirmed : CaptureDraftState → Bool
is_confirmed confirmed = true
is_confirmed _ = false

abbrev pub is_recognition : DraftFieldSource → Bool
is_recognition recognition = true
is_recognition _ = false

-- `source in _RECOGNITION_MAY_FILL`
abbrev pub may_fill : Option DraftFieldSource → Bool
may_fill none = true
may_fill (some default) = true
may_fill (some _) = false

pub record CaptureDraft : Type 0 where
  pub id : ℕ
  pub owner_id : ℕ
  pub source : CaptureSource
  pub state : CaptureDraftState
  pub revision : ℕ
  pub amount : Option Money
  pub amount_source : Option DraftFieldSource
  pub transaction_date : Option TransactionDate
  pub transaction_date_source : Option DraftFieldSource
  pub merchant : Option MerchantName
  pub merchant_source : Option DraftFieldSource
  pub category_key : Option Text
  pub category_key_source : Option DraftFieldSource
  pub note : Option Text
  pub expense_id : Option ℕ
  pub created_at : Instant
  pub modified_at : Instant
  pub confirmed_at : Option Instant
  pub receipt_id : Option ℕ
  pub recognition_result_id : Option ℕ

abbrev pub reject_recognition_provenance : DraftFieldSource → Result ValueError (Unit {0})
reject_recognition_provenance source = raise_if (is_recognition source) recognition_provenance

abbrev pub ensure_owner : CaptureDraft → ℕ → Result ValueError (Unit {0})
ensure_owner d caller_id = require (caller_id == d.owner_id) not_owner

abbrev pub ensure_editable : CaptureDraft → Result ValueError (Unit {0})
ensure_editable d = require (is_open d.state) not_editable
