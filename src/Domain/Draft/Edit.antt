-- ===== src/Domain/Draft/Edit.antt =====
-- src/mintflow/domain/capture/draft.py: the methods that set a field of an open draft. The
-- optional argument `source` is always given; its default in the source is `user`.
use mint_flow.Prelude.{ℕ, ◌+◌, Option, some}
use mint_flow.Prelude.Text.{Text, Unicode}
use mint_flow.Prelude.Datetime.{Datetime, astimezone_utc}
use mint_flow.Prelude.Result.{Result, ok, ◌>>◌}
use mint_flow.Domain.Errors.{ValueError, require_aware}
use mint_flow.Domain.Money.{Money}
use mint_flow.Domain.Values.{TransactionDate, MerchantName}
use mint_flow.Domain.Category.{require_stable_key}
use mint_flow.Domain.Draft.{
  DraftFieldSource, CaptureDraft, reject_recognition_provenance, ensure_owner, ensure_editable,
}

unfoldable pub set_amount :
    CaptureDraft → ℕ → Money → Datetime → DraftFieldSource → Result ValueError CaptureDraft
set_amount d caller_id amount now source = do
  ensure_owner d caller_id
  ensure_editable d
  require_aware now
  reject_recognition_provenance source
  ok (record d {
    amount = some amount;
    amount_source = some source;
    revision = d.revision + 1;
    modified_at = astimezone_utc now;
  })

unfoldable pub set_transaction_date :
    CaptureDraft
    → ℕ
    → TransactionDate
    → Datetime
    → DraftFieldSource
    → Result ValueError CaptureDraft
set_transaction_date d caller_id transaction_date now source = do
  ensure_owner d caller_id
  ensure_editable d
  require_aware now
  reject_recognition_provenance source
  ok (record d {
    transaction_date = some transaction_date;
    transaction_date_source = some source;
    revision = d.revision + 1;
    modified_at = astimezone_utc now;
  })

unfoldable pub set_merchant :
    CaptureDraft → ℕ → MerchantName → Datetime → DraftFieldSource → Result ValueError CaptureDraft
set_merchant d caller_id merchant now source = do
  ensure_owner d caller_id
  ensure_editable d
  require_aware now
  reject_recognition_provenance source
  ok (record d {
    merchant = some merchant;
    merchant_source = some source;
    revision = d.revision + 1;
    modified_at = astimezone_utc now;
  })

unfoldable pub set_category_key :
    ⦃u : Unicode⦄
    → CaptureDraft
    → ℕ
    → Text
    → Datetime
    → DraftFieldSource
    → Result ValueError CaptureDraft
set_category_key d caller_id category_key now source = do
  ensure_owner d caller_id
  ensure_editable d
  require_aware now
  reject_recognition_provenance source
  require_stable_key category_key
  ok (record d {
    category_key = some category_key;
    category_key_source = some source;
    revision = d.revision + 1;
    modified_at = astimezone_utc now;
  })

unfoldable pub set_note : CaptureDraft → ℕ → Option Text → Datetime → Result ValueError CaptureDraft
set_note d caller_id note now = do
  ensure_owner d caller_id
  ensure_editable d
  require_aware now
  ok (record d { note = note; revision = d.revision + 1; modified_at = astimezone_utc now })
