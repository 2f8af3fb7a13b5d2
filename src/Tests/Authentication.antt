-- ===== src/Tests/Authentication.antt =====
-- Sign-in, sessions and the link with Telegram on a small database.
use mint_flow.Prelude.{ℕ, ◌≡◌, ◌≢◌, refl, true, none, some, [], ◌∷◌, find, arith}
use mint_flow.Prelude.Text.{codes, text_eq}
use mint_flow.Prelude.Datetime.{aware}
use mint_flow.Prelude.Int.{pos}
use mint_flow.Prelude.Result.{ok}
use mint_flow.Authentication.Login.{
  consume, Drawn, MagicLinkConsumptionResult, invalid_result, failure, is_consumable, sign_up,
  open_session,
}
use mint_flow.Authentication.Login.Access.{consume-Accepted, Accepted}
use mint_flow.Authentication.Login.Once.{consume_once}
use mint_flow.Authentication.Sessions.{
  authenticate, revoke, logout, add_session, new_web_session, check_session,
}
use mint_flow.Authentication.Sessions.Laws as SessionLaws
use mint_flow.Authentication.Sessions.Laws.{revoked_never_authenticates}
use mint_flow.Authentication.Sessions.Logout.{logout_ends}
use mint_flow.Authentication.Store.{
  Store, LoginChallenge, WebSession, add_audit, login_succeeded, succeeded, current_session_revoked,
}
use mint_flow.Domain.User
use mint_flow.Domain.User.{User}

abbrev link : LoginChallenge
link = record {
  id = 1;
  canonical_email = codes "ada@example.org";
  token_hash = 77;
  issued_at = 1000;
  expires_at = 900001000;
  consumed_at = none;
  return_target = codes "/";
}

abbrev empty : Store
empty = record {
  users = [];
  identities = [];
  login_challenges = link ∷ [];
  sessions = [];
  link_challenges = [];
  connections = [];
  conversations = [];
  audit_records = [];
}

abbrev drawn : Drawn
drawn = record { user_id = 5; session_id = 6; secret_hash = 88 }

abbrev ada : User
ada = User.new_user 5 (aware 2000 (pos 0)) (record {
  timezone = record { value = codes "UTC" };
  default_currency = none;
  ui_language = record { value = codes "en" };
  locale = none;
})

abbrev session : WebSession
session = record {
  id = 6;
  user_id = 5;
  secret_hash = 88;
  issued_at = 2000;
  expires_at = 2592000002000;
  revoked_at = none;
}

abbrev signed_in : Store
signed_in = record empty {
  users = ada ∷ [];
  identities =
      record {
        user_id = 5;
        canonical_email = codes "ada@example.org";
        display_email = codes "ada@example.org";
        verified_at = 2000;
        created_at = 2000;
      }
      ∷ [];
  login_challenges = record link { consumed_at = some 2000 } ∷ [];
  sessions = session ∷ [];
  audit_records =
      record {
        occurred_at = 2000;
        event_type = login_succeeded;
        outcome = succeeded;
        user_id = some 5;
        subject_record_id = some 6;
      }
      ∷ [];
}

abbrev success : MagicLinkConsumptionResult
success = record { identity = some 5; return_target = some (codes "/") }

signs_in : consume 77 2000 drawn empty ≡ ok (success, signed_in)
unfolding consume text_eq sign_up open_session User.create User.check_user new_web_session
    check_session add_session
signs_in = refl

consume_once_example :
    consume 77 3000 drawn signed_in ≡ ok (invalid_result, add_audit (failure 3000 none) signed_in)
consume_once_example = consume_once 77 2000 3000 drawn drawn empty (ground arith) signs_in

consume-Accepted_example :
    (c : LoginChallenge) × (find (is_consumable 77 2000) empty.login_challenges ≡ some c)
    × Accepted c 2000 drawn 5 4000 signed_in
consume-Accepted_example = consume-Accepted 77 2000 4000 drawn empty 5 signs_in refl

abbrev stored : Store
stored = record empty { sessions = session ∷ [] }

makes_session : new_web_session 6 88 5 (aware 2000 (pos 0)) ≡ ok session
unfolding new_web_session check_session
makes_session = refl

stores_session : add_session session empty ≡ ok stored
unfolding add_session
stores_session = refl

logout_ends_example : authenticate 88 5000 (logout 88 4000 stored) ≡ none
logout_ends_example =
    logout_ends 88 4000 5000 empty stored refl
      (SessionLaws.next SessionLaws.here (SessionLaws.added session stores_session))

abbrev second : WebSession
second = record session { id = 9; secret_hash = 99 }

abbrev two_sessions : Store
two_sessions = record signed_in { sessions = second ∷ session ∷ [] }

abbrev revoked : Store
revoked = record two_sessions {
  sessions = second ∷ record session { revoked_at = some 3000 } ∷ [];
  audit_records =
      record {
        occurred_at = 3000;
        event_type = current_session_revoked;
        outcome = succeeded;
        user_id = some 5;
        subject_record_id = some 6;
      }
      ∷ signed_in.audit_records;
}

revokes : revoke 6 3000 two_sessions ≡ (true, revoked)
unfolding revoke
revokes = refl

authenticates : authenticate 99 4000 revoked ≡ some (record { session_id = 9; user_id = 5 })
unfolding authenticate
authenticates = refl

revoked_never_authenticates_example : ◌≢◌ {A = ℕ} 9 6
revoked_never_authenticates_example =
    revoked_never_authenticates 6 99 3000 4000 two_sessions refl revokes SessionLaws.here
      authenticates
