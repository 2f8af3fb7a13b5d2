-- ===== src/Authentication/Login.antt =====
-- Signing in with a link: `consume` of src/mintflow/infrastructure/persistence/login_challenges.py as
-- `ConsumeMagicLink` of src/mintflow/application/authentication/login_challenge.py calls it. The ids
-- and the digest of the session's secret are drawn outside; the two reads that lock are plain reads.
pub mod Ending
pub mod Once
pub mod Access
use mint_flow.Prelude.{
  ℕ, Bool, true, false, Option, none, some, is_none, List, [], ◌∷◌, ◌&&◌, ◌||◌, ◌==◌, ltb, map,
  find, if◌then◌else◌,
}
use mint_flow.Prelude.Datetime.{Datetime, Instant, aware}
use mint_flow.Prelude.Int.{pos}
use mint_flow.Prelude.Result.{Result, ok, err, ◌>>=◌, ◌>>◌}
use mint_flow.Prelude.Text.{Text, codes, text_eq}
use mint_flow.Authentication.Sessions.{new_web_session, add_session}
use mint_flow.Authentication.Store.{
  Store, StoreError, conflict, bad_value, LoginChallenge, EmailIdentity, AuthenticationAuditRecord,
  login_failed, login_succeeded, succeeded, failed, add_audit,
}
use mint_flow.Domain.Errors.{ValueError}
use mint_flow.Domain.User
use mint_flow.Domain.User.{User}

pub record MagicLinkConsumptionResult : Type 0 where
  pub identity : Option ℕ
  pub return_target : Option Text

-- `INVALID_MAGIC_LINK_CONSUMPTION_RESULT`
abbrev pub invalid_result : MagicLinkConsumptionResult
invalid_result = record { identity = none; return_target = none }

-- what is drawn for a sign-in: the user's id, if there is none yet, and the session's id and digest
pub record Drawn : Type 0 where
  pub user_id : ℕ
  pub session_id : ℕ
  pub secret_hash : ℕ

abbrev pub is_consumable : ℕ → Instant → LoginChallenge → Bool
is_consumable token_hash at c =
    c.token_hash == token_hash && (is_none c.consumed_at && ltb at c.expires_at)

abbrev pub consume_row : ℕ → Instant → LoginChallenge → LoginChallenge
consume_row token_hash at c =
    if is_consumable token_hash at c then record c { consumed_at = some at } else c

abbrev pub failure : Instant → Option ℕ → AuthenticationAuditRecord
failure at user_id = record {
  occurred_at = at;
  event_type = login_failed;
  outcome = failed;
  user_id = user_id;
  subject_record_id = none;
}

abbrev pub has_email : Text → EmailIdentity → Bool
has_email email i = text_eq i.canonical_email email

abbrev pub has_user_id : ℕ → User → Bool
has_user_id user_id u = u.id == user_id

-- the join of the identity with its user
abbrev pub user_of_identity : Option EmailIdentity → List User → Option User
user_of_identity none users = none
user_of_identity (some i) users = find (has_user_id i.user_id) users

abbrev pub lift : {A : Type 0} → Result ValueError A → Result StoreError A
lift (ok a) = ok a
lift (err e) = err bad_value

-- `User.create` with its defaults
abbrev pub default_settings : User.NewUser
default_settings = record {
  timezone = record { value = codes "UTC" };
  default_currency = none;
  ui_language = record { value = codes "en" };
  locale = none;
}

abbrev insert_user : Option User → User → Store → Result StoreError Store
insert_user (some row) u s = err conflict
insert_user none u s = ok (record s { users = u ∷ s.users })

-- the unique constraints of email identities
abbrev pub same_identity : EmailIdentity → EmailIdentity → Bool
same_identity new row =
    row.user_id == new.user_id || text_eq row.canonical_email new.canonical_email

abbrev insert_identity : Option EmailIdentity → EmailIdentity → Store → Result StoreError Store
insert_identity (some row) i s = err conflict
insert_identity none i s = ok (record s { identities = i ∷ s.identities })

abbrev pub new_identity : ℕ → Text → Instant → EmailIdentity
new_identity user_id email at = record {
  user_id = user_id;
  canonical_email = email;
  display_email = email;
  verified_at = at;
  created_at = at;
}

unfoldable pub sign_up : Text → Instant → ℕ → Store → Result StoreError Store
unfolding text_eq
sign_up email at fresh s = do
  user ← lift (User.create fresh (aware at (pos 0)) default_settings)
  s1 ← insert_user (find (has_user_id user.id) s.users) user s
  insert_identity (find (same_identity (new_identity user.id email at)) s1.identities)
      (new_identity user.id email at) s1

unfoldable pub open_session :
    LoginChallenge
    → Instant
    → Drawn
    → ℕ
    → Store
    → Result StoreError (MagicLinkConsumptionResult × Store)
open_session c at drawn user_id s = do
  web_session ← lift (new_web_session drawn.session_id drawn.secret_hash user_id (aware at (pos 0)))
  s1 ← add_session web_session s
  ok (
    record { identity = some user_id; return_target = some c.return_target },
    add_audit
        (record {
          occurred_at = at;
          event_type = login_succeeded;
          outcome = succeeded;
          user_id = some user_id;
          subject_record_id = some web_session.id;
        })
        s1,
  )

abbrev pub sign_in :
    Option User
    → LoginChallenge
    → Instant
    → Drawn
    → Store
    → Result StoreError (MagicLinkConsumptionResult × Store)
sign_in none c at drawn s = do
  s1 ← sign_up c.canonical_email at drawn.user_id s
  open_session c at drawn drawn.user_id s1
sign_in (some u) c at drawn s =
    if User.is_active u.status
    then open_session c at drawn u.id s
    else ok (invalid_result, add_audit (failure at (some u.id)) s)

abbrev pub with_challenge :
    Option LoginChallenge
    → Instant
    → Drawn
    → Store
    → Result StoreError (MagicLinkConsumptionResult × Store)
with_challenge none at drawn s = ok (invalid_result, add_audit (failure at none) s)
with_challenge (some c) at drawn s =
    sign_in (user_of_identity (find (has_email c.canonical_email) s.identities) s.users) c at drawn
      s

abbrev pub marked : ℕ → Instant → Store → Store
marked token_hash at s = record s {
  login_challenges = map (consume_row token_hash at) s.login_challenges;
}

-- `consume`
unfoldable pub consume :
    ℕ → Instant → Drawn → Store → Result StoreError (MagicLinkConsumptionResult × Store)
unfolding text_eq
consume token_hash at drawn s =
    with_challenge (find (is_consumable token_hash at) s.login_challenges) at drawn
      (marked token_hash at s)
