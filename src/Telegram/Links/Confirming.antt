-- ===== src/Telegram/Links/Confirming.antt =====
-- `confirm` of telegram_links.py: the connection of a claimed challenge.
use mint_flow.Prelude.{
  ℕ, Bool, false, Option, none, some, is_none, is_some, ◌∷◌, ◌&&◌, ◌||◌, ◌==◌, ltb, map, find,
  if◌then◌else◌,
}
use mint_flow.Prelude.Datetime.{Instant}
use mint_flow.Prelude.Result.{Result, ok, err}
use mint_flow.Prelude.Text.{Text}
use mint_flow.Authentication.Store.{
  Store, StoreError, conflict, WebSession, TelegramLinkChallenge, TelegramConnection,
  telegram_linked, add_audit, is_active_user,
}
use mint_flow.Telegram.Links.{connects_user, connects_telegram, link_audit}

abbrev pub is_confirmable : ℕ → ℕ → Instant → TelegramLinkChallenge → Bool
is_confirmable challenge_id web_session_id now c =
    c.id == challenge_id
    && (c.initiating_web_session_id == web_session_id
        && (is_some c.claimed_at && (is_none c.confirmed_at && ltb now c.expires_at)))

-- `session_is_valid`
abbrev pub is_valid_session : ℕ → ℕ → Instant → Store → WebSession → Bool
is_valid_session web_session_id user_id now s w =
    w.id == web_session_id
    && (w.user_id == user_id
        && (is_none w.revoked_at && (ltb now w.expires_at && is_active_user w.user_id s)))

abbrev pub new_connection : ℕ → ℕ → ℕ → Option Text → Instant → TelegramConnection
new_connection fresh user_id telegram_user_id display_name now = record {
  id = fresh;
  user_id = user_id;
  telegram_user_id = telegram_user_id;
  telegram_display_name = display_name;
  linked_at = now;
  unlinked_at = none;
}

-- the primary key and the two partial unique indexes
abbrev pub same_connection : TelegramConnection → TelegramConnection → Bool
same_connection new row =
    row.id == new.id
    || (connects_user new.user_id row || connects_telegram new.telegram_user_id row)

abbrev pub confirm_row : ℕ → Instant → TelegramLinkChallenge → TelegramLinkChallenge
confirm_row challenge_id now c =
    if c.id == challenge_id then record c { confirmed_at = some now } else c

abbrev pub claimed_later : Option Instant → Instant → Bool
claimed_later none now = false
claimed_later (some t) now = ltb now t

abbrev pub insert_connection :
    Option TelegramConnection
    → TelegramLinkChallenge
    → TelegramConnection
    → Instant
    → Store
    → Result StoreError (Option TelegramConnection × Store)
insert_connection (some row) c k now s = ok (none, s)
insert_connection none c k now s =
    if claimed_later c.claimed_at now
    then err conflict
    else ok (
      some k,
      add_audit (link_audit telegram_linked c.initiating_user_id k.id now) (record s {
        connections = k ∷ s.connections;
        link_challenges = map (confirm_row c.id now) s.link_challenges;
      }),
    )

abbrev pub with_telegram :
    Option ℕ
    → TelegramLinkChallenge
    → ℕ
    → ℕ
    → Instant
    → Store
    → Result StoreError (Option TelegramConnection × Store)
with_telegram none c web_session_id fresh now s = ok (none, s)
with_telegram (some telegram_user_id) c web_session_id fresh now s =
    if is_some (find (is_valid_session web_session_id c.initiating_user_id now s) s.sessions)
    then (let k =
          new_connection fresh c.initiating_user_id telegram_user_id c.claimed_telegram_display_name
            now in
        insert_connection (find (same_connection k) s.connections) c k now s)
    else ok (none, s)

abbrev pub confirm_found :
    Option TelegramLinkChallenge
    → ℕ
    → ℕ
    → Instant
    → Store
    → Result StoreError (Option TelegramConnection × Store)
confirm_found none web_session_id fresh now s = ok (none, s)
confirm_found (some c) web_session_id fresh now s =
    with_telegram c.claimed_telegram_user_id c web_session_id fresh now s

-- `confirm`
unfoldable pub confirm :
    ℕ → ℕ → ℕ → Instant → Store → Result StoreError (Option TelegramConnection × Store)
confirm challenge_id web_session_id fresh now s =
    confirm_found (find (is_confirmable challenge_id web_session_id now) s.link_challenges)
      web_session_id fresh now s
