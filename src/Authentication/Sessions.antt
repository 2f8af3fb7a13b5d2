-- ===== src/Authentication/Sessions.antt =====
-- src/mintflow/application/authentication/web_session.py and
-- src/mintflow/infrastructure/persistence/web_sessions.py. The clock is the argument `now`.
pub mod Laws
pub mod Lifetime
pub mod Logout
use mint_flow.Prelude.{
  ℕ, ◌+◌, ◌*◌, Bool, true, false, Option, none, some, is_none, is_some, List, [], ◌∷◌, ◌&&◌, ◌||◌,
  ◌==◌, ltb, leb, map, find, filter, length, if◌then◌else◌, not,
}
use mint_flow.Prelude.Datetime.{Datetime, Instant, is_aware, astimezone_utc}
use mint_flow.Prelude.Result.{Result, ok, err, ◌>>=◌, ◌>>◌, require, raise_if}
use mint_flow.Authentication.Store.{
  Store, StoreError, conflict, WebSession, AuthenticationAuditRecord, current_session_revoked,
  all_sessions_revoked, succeeded, failed, add_audit, is_active_user,
}
use mint_flow.Domain.Errors.{ValueError, naive_datetime, bad_session, require_aware}

-- 30 days, in microseconds
abbrev pub web_session_lifetime : ℕ
web_session_lifetime = 30 * 86400 * 1000000

abbrev revoked_before : Option Instant → Instant → Bool
revoked_before none issued_at = false
revoked_before (some t) issued_at = ltb t issued_at

-- `WebSession.__post_init__`, for times that have an offset
unfoldable pub check_session : WebSession → Result ValueError WebSession
check_session s = do
  raise_if (leb s.expires_at s.issued_at) bad_session
  raise_if (ltb (s.issued_at + web_session_lifetime) s.expires_at) bad_session
  raise_if (revoked_before s.revoked_at s.issued_at) bad_session
  ok s

-- `new_web_session`, where the id and the digest of the token are drawn outside
unfoldable pub new_web_session : ℕ → ℕ → ℕ → Datetime → Result ValueError WebSession
new_web_session fresh secret_hash user_id issued_at = do
  require_aware issued_at
  check_session (record {
    id = fresh;
    user_id = user_id;
    secret_hash = secret_hash;
    issued_at = astimezone_utc issued_at;
    expires_at = astimezone_utc issued_at + web_session_lifetime;
    revoked_at = none;
  })

-- the primary key and `uq_web_sessions_secret_hash`
abbrev pub same_session : WebSession → WebSession → Bool
same_session new row = row.id == new.id || row.secret_hash == new.secret_hash

abbrev insert_unless : Option WebSession → WebSession → Store → Result StoreError Store
insert_unless (some row) new s = err conflict
insert_unless none new s = ok (record s { sessions = new ∷ s.sessions })

-- `session.add(WebSessionRecord(…))`
unfoldable pub add_session : WebSession → Store → Result StoreError Store
add_session new s = insert_unless (find (same_session new) s.sessions) new s

pub record AuthenticatedWebSession : Type 0 where
  pub session_id : ℕ
  pub user_id : ℕ

abbrev pub is_authentic : Store → ℕ → Instant → WebSession → Bool
is_authentic s secret_hash now w =
    w.secret_hash == secret_hash
    && (is_none w.revoked_at && (ltb now w.expires_at && is_active_user w.user_id s))

abbrev pub as_authenticated : Option WebSession → Option AuthenticatedWebSession
as_authenticated none = none
as_authenticated (some w) = some (record { session_id = w.id; user_id = w.user_id })

-- `authenticate`; the digest finds one row at most
unfoldable pub authenticate : ℕ → Instant → Store → Option AuthenticatedWebSession
authenticate secret_hash now s = as_authenticated (find (is_authentic s secret_hash now) s.sessions)

abbrev pub id_of : Option WebSession → Option ℕ
id_of none = none
id_of (some w) = some w.id

-- `find_session_id`
unfoldable pub find_session_id : ℕ → Store → Option ℕ
find_session_id secret_hash s =
    id_of (find (λ (w : WebSession). w.secret_hash == secret_hash) s.sessions)

abbrev pub user_of : Option WebSession → Option ℕ
user_of none = none
user_of (some w) = some w.user_id

abbrev pub may_revoke : ℕ → WebSession → Bool
may_revoke session_id w = w.id == session_id && is_none w.revoked_at

abbrev pub of_user : ℕ → WebSession → Bool
of_user user_id w = w.user_id == user_id && is_none w.revoked_at

abbrev pub revoke_row : (WebSession → Bool) → Instant → WebSession → WebSession
revoke_row chosen at w = if chosen w then record w { revoked_at = some at } else w

-- the update of the rows that `chosen` picks, and its `rowcount`
abbrev pub revoke_rows : (WebSession → Bool) → Instant → List WebSession → List WebSession
revoke_rows chosen at [] = []
revoke_rows chosen at (w ∷ rows) = revoke_row chosen at w ∷ revoke_rows chosen at rows

abbrev pub rowcount : (WebSession → Bool) → List WebSession → ℕ
rowcount chosen [] = 0
rowcount chosen (w ∷ rows) = let rest = rowcount chosen rows in if chosen w then 1 + rest else rest

-- `revoke`
unfoldable pub revoke : ℕ → Instant → Store → Bool × Store
revoke session_id revoked_at s =
    let one = rowcount (may_revoke session_id) s.sessions == 1 in
    (
      one,
      add_audit
          (record {
            occurred_at = revoked_at;
            event_type = current_session_revoked;
            outcome = if one then succeeded else failed;
            user_id = user_of (find (λ (w : WebSession). w.id == session_id) s.sessions);
            subject_record_id = some session_id;
          })
          (record s { sessions = revoke_rows (may_revoke session_id) revoked_at s.sessions }),
    )

-- `revoke_all`
unfoldable pub revoke_all : ℕ → Instant → Store → ℕ × Store
revoke_all user_id revoked_at s = (
  rowcount (of_user user_id) s.sessions,
  add_audit
      (record {
        occurred_at = revoked_at;
        event_type = all_sessions_revoked;
        outcome = succeeded;
        user_id = some user_id;
        subject_record_id = none;
      })
      (record s { sessions = revoke_rows (of_user user_id) revoked_at s.sessions }),
)

-- `LogoutWebSession.execute`
abbrev logout_found : Option ℕ → Instant → Store → Store
logout_found none now s = s
logout_found (some session_id) now s = let (_, s') = revoke session_id now s in s'

unfoldable pub logout : ℕ → Instant → Store → Store
logout secret_hash now s = logout_found (find_session_id secret_hash s) now s
