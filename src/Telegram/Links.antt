-- ===== src/Telegram/Links.antt =====
-- The ceremony of linking, as the repository's transactions. The ids are drawn outside, the clock is
-- the argument `now`, and a condition of models.py on the order of times that an update would break
-- is the exception that it raises.
pub mod Confirming
pub mod Views
pub mod Outcome
pub mod Exclusive
pub mod Accounts
pub mod Ceremony
pub mod Unlinking
use mint_flow.Prelude.{
  ℕ, ◌+◌, ◌*◌, Bool, true, false, Option, none, some, is_none, is_some, List, [], ◌∷◌, ◌&&◌, ◌||◌,
  ◌==◌, ltb, leb, map, filter, find, not, if◌then◌else◌,
}
use mint_flow.Prelude.Datetime.{Instant}
use mint_flow.Prelude.Result.{Result, ok, err}
use mint_flow.Prelude.Text.{Text}
use mint_flow.Authentication.Store.{
  Store, StoreError, conflict, bad_value, WebSession, TelegramLinkChallenge, TelegramConnection,
  TelegramConversation, AuthenticationAuditRecord, AuthenticationAuditEventType,
  telegram_link_claimed, telegram_linked, telegram_unlinked, succeeded, add_audit, is_active_user,
}
use mint_flow.Domain.User
use mint_flow.Domain.User.{User}

-- 5 minutes, in microseconds
abbrev pub telegram_link_challenge_lifetime : ℕ
telegram_link_challenge_lifetime = 5 * 60 * 1000000

-- `_audit`
abbrev pub link_audit : AuthenticationAuditEventType → ℕ → ℕ → Instant → AuthenticationAuditRecord
link_audit event_type user_id subject at = record {
  occurred_at = at;
  event_type = event_type;
  outcome = succeeded;
  user_id = some user_id;
  subject_record_id = some subject;
}

abbrev pub new_challenge : ℕ → ℕ → ℕ → ℕ → Instant → TelegramLinkChallenge
new_challenge fresh token_hash user_id web_session_id issued_at = record {
  id = fresh;
  token_hash = token_hash;
  initiating_user_id = user_id;
  initiating_web_session_id = web_session_id;
  issued_at = issued_at;
  expires_at = issued_at + telegram_link_challenge_lifetime;
  claimed_at = none;
  claimed_telegram_user_id = none;
  claimed_telegram_display_name = none;
  confirmed_at = none;
}

abbrev pub same_challenge : TelegramLinkChallenge → TelegramLinkChallenge → Bool
same_challenge new row = row.id == new.id || row.token_hash == new.token_hash

abbrev insert_challenge :
    Option TelegramLinkChallenge → TelegramLinkChallenge → Store → Result StoreError Store
insert_challenge (some row) c s = err conflict
insert_challenge none c s = ok (record s { link_challenges = c ∷ s.link_challenges })

-- `create_challenge`, as `IssueTelegramLinkChallenge` calls it
unfoldable pub create_challenge : ℕ → ℕ → ℕ → ℕ → Instant → Store → Result StoreError Store
create_challenge fresh token_hash user_id web_session_id issued_at s =
    let c = new_challenge fresh token_hash user_id web_session_id issued_at in
    insert_challenge (find (same_challenge c) s.link_challenges) c s

abbrev pub connects_telegram : ℕ → TelegramConnection → Bool
connects_telegram telegram_user_id k =
    k.telegram_user_id == telegram_user_id && is_none k.unlinked_at

abbrev pub connects_user : ℕ → TelegramConnection → Bool
connects_user user_id k = k.user_id == user_id && is_none k.unlinked_at

abbrev pub is_claimable : ℕ → ℕ → Instant → Store → TelegramLinkChallenge → Bool
is_claimable token_hash telegram_user_id now s c =
    c.token_hash == token_hash
    && (is_none c.claimed_at
        && (is_none c.confirmed_at
            && (ltb now c.expires_at
                && (is_active_user c.initiating_user_id s
                    && is_none (find (connects_telegram telegram_user_id) s.connections)))))

abbrev pub claimed : ℕ → Option Text → Instant → TelegramLinkChallenge → TelegramLinkChallenge
claimed telegram_user_id display_name now c = record c {
  claimed_at = some now;
  claimed_telegram_user_id = some telegram_user_id;
  claimed_telegram_display_name = display_name;
}

abbrev pub claim_row :
    (TelegramLinkChallenge → Bool)
    → ℕ
    → Option Text
    → Instant
    → TelegramLinkChallenge
    → TelegramLinkChallenge
claim_row chosen telegram_user_id display_name now c =
    if chosen c then claimed telegram_user_id display_name now c else c

abbrev pub claim_found :
    Option TelegramLinkChallenge
    → ℕ
    → ℕ
    → Option Text
    → Instant
    → Store
    → Result StoreError (Option TelegramLinkChallenge × Store)
claim_found none token_hash telegram_user_id display_name now s = ok (none, s)
claim_found (some c) token_hash telegram_user_id display_name now s =
    if ltb now c.issued_at
    then err conflict
    else ok (
      some (claimed telegram_user_id display_name now c),
      add_audit (link_audit telegram_link_claimed c.initiating_user_id c.id now) (record s {
        link_challenges =
            map
              (claim_row (is_claimable token_hash telegram_user_id now s) telegram_user_id
                display_name now)
              s.link_challenges;
      }),
    )

-- `claim`; the digest of the token finds one row at most
unfoldable pub claim :
    ℕ → ℕ → Option Text → Instant → Store → Result StoreError (Option TelegramLinkChallenge × Store)
claim token_hash telegram_user_id display_name now s =
    claim_found (find (is_claimable token_hash telegram_user_id now s) s.link_challenges) token_hash
      telegram_user_id display_name now s

-- `active_connection_for_user` and `active_connection_for_telegram_user`
unfoldable pub active_connection_for_user : ℕ → Store → Option TelegramConnection
active_connection_for_user user_id s = find (connects_user user_id) s.connections

unfoldable pub active_connection_for_telegram_user : ℕ → Store → Option TelegramConnection
active_connection_for_telegram_user telegram_user_id s =
    find (connects_telegram telegram_user_id) s.connections

abbrev pub unlink_row : ℕ → Instant → TelegramConnection → TelegramConnection
unlink_row user_id now k =
    if connects_user user_id k then record k { unlinked_at = some now } else k

abbrev pub not_of : ℕ → TelegramConversation → Bool
not_of user_id c = not (c.user_id == user_id)

abbrev pub unlink_found :
    Option TelegramConnection → ℕ → Instant → Store → Result StoreError (Bool × Store)
unlink_found none user_id now s = ok (false, s)
unlink_found (some k) user_id now s =
    if ltb now k.linked_at
    then err conflict
    else ok (
      true,
      add_audit (link_audit telegram_unlinked user_id k.id now) (record s {
        connections = map (unlink_row user_id now) s.connections;
        conversations = filter (not_of user_id) s.conversations;
      }),
    )

-- `unlink`
unfoldable pub unlink : ℕ → Instant → Store → Result StoreError (Bool × Store)
unlink user_id now s = unlink_found (find (connects_user user_id) s.connections) user_id now s
