-- ===== src/Authentication/RateLimit.antt =====
-- src/mintflow/application/authentication/rate_limit.py and
-- src/mintflow/infrastructure/persistence/authentication_rate_limits.py. The digest of a key is drawn
-- outside, as it is one of a keyed hash function. Instants are counted from a midnight of UTC, so that
-- the minute of an instant is found by division.
pub mod Window
pub mod Grants
use mint_flow.Prelude.{
  ℕ, ◌+◌, ◌-◌, ◌*◌, ◌/◌, ◌%◌, Bool, true, false, List, [], ◌∷◌, ◌&&◌, ◌==◌, ltb, if◌then◌else◌,
}
use mint_flow.Prelude.Datetime.{Datetime, Instant, astimezone_utc}
use mint_flow.Prelude.Result.{Result, ok, ◌>>=◌, ◌>>◌}
use mint_flow.Domain.Errors.{ValueError, require_aware}

-- in microseconds
abbrev pub one_minute : ℕ
one_minute = 60000000

abbrev pub rate_limit_retention : ℕ
rate_limit_retention = 24 * 60 * 60000000

abbrev pub email_delivery_limit : ℕ
email_delivery_limit = 3

abbrev pub network_request_limit : ℕ
network_request_limit = 30

pub data RateLimitDimension : Type 0 where
  email_delivery network_request : RateLimitDimension

abbrev place : RateLimitDimension → ℕ
place email_delivery = 0
place network_request = 1

pub record RateLimitReservation : Type 0 where
  pub dimension : RateLimitDimension
  pub key_digest : ℕ
  pub window_started_at : Instant
  pub expires_at : Instant
  pub limit : ℕ

abbrev pub minute : Instant → ℕ
minute t = t / one_minute % 60

-- `utc_now.replace(minute=minute - minute % 15, second=0, microsecond=0)`
unfoldable pub window_start : Instant → Instant
window_start t = t - t % one_minute - minute t % 15 * one_minute

-- `fixed_window_start`
unfoldable pub fixed_window_start : Datetime → Result ValueError Instant
unfolding window_start
fixed_window_start now = do require_aware now; ok (window_start (astimezone_utc now))

-- `make_reservation`
unfoldable pub make_reservation :
    RateLimitDimension → ℕ → Datetime → ℕ → Result ValueError RateLimitReservation
make_reservation dimension key_digest now limit = do
  start ← fixed_window_start now
  ok (record {
    dimension = dimension;
    key_digest = key_digest;
    window_started_at = start;
    expires_at = start + rate_limit_retention;
    limit = limit;
  })

-- a row of `authentication_rate_limit_buckets`
pub record Bucket : Type 0 where
  pub dimension : RateLimitDimension
  pub key_digest : ℕ
  pub window_started_at : Instant
  pub count : ℕ
  pub expires_at : Instant

abbrev pub is_bucket_of : RateLimitReservation → Bucket → Bool
is_bucket_of r b =
    place b.dimension == place r.dimension
    && (b.key_digest == r.key_digest && b.window_started_at == r.window_started_at)

abbrev pub new_bucket : RateLimitReservation → Bucket
new_bucket r = record {
  dimension = r.dimension;
  key_digest = r.key_digest;
  window_started_at = r.window_started_at;
  count = 1;
  expires_at = r.expires_at;
}

abbrev pub add_one : RateLimitReservation → Bucket → Bool × Bucket
add_one r b = if ltb b.count r.limit then (true, record b { count = b.count + 1 }) else (false, b)

abbrev pub in_front : Bucket → Bool × List Bucket → Bool × List Bucket
in_front b (allowed, rows) = (allowed, b ∷ rows)

abbrev pub before_rows : Bool × Bucket → List Bucket → Bool × List Bucket
before_rows (allowed, b) rows = (allowed, b ∷ rows)

-- `reserve`: the insertion that adds one to the count of the bucket that there is, if it is below
-- the limit, and whether it returned a row
unfoldable pub reserve : RateLimitReservation → List Bucket → Bool × List Bucket
reserve r [] = (true, new_bucket r ∷ [])
reserve r (b ∷ rows) =
    let rest = reserve r rows in
    if is_bucket_of r b then before_rows (add_one r b) rows else in_front b rest
