-- ===== src/Capture/Errors.antt =====
-- The exceptions of src/mintflow/application/capture, with a constructor for each message of
-- `CaptureDraftNotConfirmable`, and the database's integrity error.
use mint_flow.Domain.Errors.{ValueError}

pub data CaptureError : Type 0 where
  access_denied : CaptureError
  not_confirmable missing_field future_date : CaptureError
  no_expense_id no_linked_expense expense_deleted : CaptureError
  expense_not_found owner_not_found edit_rejected : CaptureError
  integrity_error : CaptureError
  value_error : ValueError → CaptureError
