-- ===== src/Domain/Receipt.antt =====
-- src/mintflow/domain/capture/receipt.py: the life of a receipt and of its processing attempts.
-- `uuid4()` is the argument `fresh` of the operations that draw an id.
pub mod Attempts
use mint_flow.Prelude.{
  ℕ, ◌+◌, Bool, true, false, Option, none, some, ◌==◌, leb, is_none, is_some, if◌then◌else◌, ◌&&◌,
  ◌||◌, not,
}
use mint_flow.Prelude.Datetime.{Datetime, Instant, astimezone_utc}
use mint_flow.Prelude.Int.{ℤ, pos, negsuc}
use mint_flow.Prelude.Result.{Result, ok, err, ◌>>=◌, ◌>>◌, require, raise_if}
use mint_flow.Domain.Errors.{
  ValueError, not_claimable, lease_not_positive, stale_attempt, not_positive, require_aware,
}
use mint_flow.Domain.Money.{Money}
use mint_flow.Domain.Values.{TransactionDate, MerchantName}

abbrev pub utc : Datetime → Result ValueError Instant
utc now = do require_aware now; ok (astimezone_utc now)

pub data ReceiptState : Type 0 where
  queued processing recognized recognition_failed : ReceiptState

abbrev pub is_queued : ReceiptState → Bool
is_queued queued = true
is_queued _ = false

abbrev pub is_processing : ReceiptState → Bool
is_processing processing = true
is_processing _ = false

pub record Receipt : Type 0 where
  pub id : ℕ
  pub owner_id : ℕ
  pub state : ReceiptState
  pub attempt_id : Option ℕ
  pub lease_expires_at : Option Instant
  pub image_removed_at : Option Instant
  pub created_at : Instant
  pub modified_at : Instant

unfoldable pub receive : ℕ → ℕ → Datetime → Result ValueError Receipt
receive fresh owner_id now = do
  received_at ← utc now
  ok (record {
    id = fresh;
    owner_id = owner_id;
    state = queued;
    attempt_id = none;
    lease_expires_at = none;
    image_removed_at = none;
    created_at = received_at;
    modified_at = received_at;
  })

-- `lease_expires_at is not None and lease_expires_at <= _utc(now)`
abbrev lease_is_over : Option Instant → Datetime → Result ValueError Bool
lease_is_over none now = ok false
lease_is_over (some t) now = do at ← utc now; ok (leb t at)

-- A naive `now` is refused only where the lease is compared with it.
unfoldable pub is_claimable : Receipt → Datetime → Result ValueError Bool
is_claimable r now =
    if is_some r.image_removed_at
    then ok false
    else if is_queued r.state
    then ok true
    else if is_processing r.state
    then lease_is_over r.lease_expires_at now
    else ok false

-- The lease is a `timedelta`, a signed number of microseconds.
abbrev positive_lease : ℤ → Result ValueError ℕ
positive_lease (negsuc n) = err lease_not_positive
positive_lease (pos n) = if n == 0 then err lease_not_positive else ok n

unfoldable pub claim : ℕ → Receipt → Datetime → ℤ → Result ValueError Receipt
unfolding is_claimable
claim fresh r now lease = do
  claimable ← is_claimable r now
  require claimable not_claimable
  length ← positive_lease lease
  claimed_at ← utc now
  ok (record r {
    state = processing;
    attempt_id = some fresh;
    lease_expires_at = some (claimed_at + length);
    modified_at = claimed_at;
  })

abbrev pub is_attempt : Option ℕ → ℕ → Bool
is_attempt none attempt_id = false
is_attempt (some a) attempt_id = a == attempt_id

-- `_finish`
unfoldable pub finish : Receipt → ℕ → Datetime → ReceiptState → Result ValueError Receipt
finish r attempt_id now state = do
  raise_if (not (is_processing r.state) || not (is_attempt r.attempt_id attempt_id)) stale_attempt
  modified_at ← utc now
  ok (record r { state = state; lease_expires_at = none; modified_at = modified_at })

unfoldable pub complete : Receipt → ℕ → Datetime → Result ValueError Receipt
unfolding finish
complete r attempt_id now = finish r attempt_id now recognized

unfoldable pub fail : Receipt → ℕ → Datetime → Result ValueError Receipt
unfolding finish
fail r attempt_id now = finish r attempt_id now recognition_failed

unfoldable pub remove_image : Receipt → Datetime → Result ValueError Receipt
remove_image r now = if is_some r.image_removed_at then ok r else do
  removed_at ← utc now
  ok (record r { image_removed_at = some removed_at; modified_at = removed_at })

pub record RecognitionResult : Type 0 where
  pub id : ℕ
  pub receipt_id : ℕ
  pub attempt_id : ℕ
  pub owner_id : ℕ
  pub merchant : Option MerchantName
  pub transaction_date : Option TransactionDate
  pub total : Option Money
  pub created_at : Instant

abbrev is_zero_total : Option Money → Bool
is_zero_total none = false
is_zero_total (some m) = leb m.minor_units 0

-- `for_attempt`, with the checks of `__post_init__`
unfoldable pub for_attempt :
    ℕ
    → Receipt
    → ℕ
    → Option MerchantName
    → Option TransactionDate
    → Option Money
    → Datetime
    → Result ValueError RecognitionResult
for_attempt fresh receipt attempt_id merchant transaction_date total now = do
  raise_if (is_zero_total total) not_positive
  created_at ← utc now
  ok (record {
    id = fresh;
    receipt_id = receipt.id;
    attempt_id = attempt_id;
    owner_id = receipt.owner_id;
    merchant = merchant;
    transaction_date = transaction_date;
    total = total;
    created_at = created_at;
  })

-- `RecognitionResult.is_empty`
unfoldable pub is_empty_result : RecognitionResult → Bool
is_empty_result r = is_none r.merchant && (is_none r.transaction_date && is_none r.total)
