-- ===== src/Domain/Errors.antt =====
-- The `ValueError`s of src/mintflow/domain and of expense_changes.py: each `raise ValueError` is a constructor of its own,
-- named for its message.
use mint_flow.Prelude.Result.{Result, require}
use mint_flow.Prelude.Datetime.{Datetime, is_aware}

pub data ValueError : Type 0 where
  naive_datetime : ValueError
  unsupported_currency negative_amount amount_too_large currency_mismatch : ValueError
  bad_year empty_merchant long_merchant : ValueError
  unstable_key empty_category_name uncategorized_inactive : ValueError
  not_owner not_editable recognition_provenance foreign_result : ValueError
  not_collecting not_confirmable not_cancellable not_expirable : ValueError
  not_positive not_claimable lease_not_positive stale_attempt : ValueError
  status_mismatch deactivated_before_created : ValueError
  unknown_timezone bad_locale bad_ui_language : ValueError
  bad_session : ValueError
  bad_change no_changes repeated_field unexpected_changes : ValueError

-- `_require_aware`, the same function in draft.py and expense.py
abbrev pub require_aware : Datetime → Result ValueError (Unit {0})
require_aware now = require (is_aware now) naive_datetime
