-- ===== src/Telegram/Links/Views.antt =====
-- Who acts from a Telegram account, and what the web shows of a challenge.
use mint_flow.Prelude.{
  ℕ, Bool, Option, none, some, is_some, List, ◌&&◌, ◌==◌, leb, find, if◌then◌else◌,
}
use mint_flow.Prelude.Datetime.{Instant}
use mint_flow.Authentication.Store.{Store, TelegramLinkChallenge, TelegramConnection}
use mint_flow.Domain.User
use mint_flow.Domain.User.{User}
use mint_flow.Telegram.Links.{active_connection_for_telegram_user}

abbrev pub active_only : Option User → Option User
active_only none = none
active_only (some u) = if User.is_active u.status then some u else none

abbrev pub user_of_connection : Option TelegramConnection → List User → Option User
user_of_connection none users = none
user_of_connection (some k) users = active_only (find (λ (u : User). u.id == k.user_id) users)

-- `ResolveTelegramUser.execute`
unfoldable pub resolve : ℕ → Store → Option User
unfolding active_connection_for_telegram_user
resolve telegram_user_id s =
    user_of_connection (active_connection_for_telegram_user telegram_user_id s) s.users

pub data TelegramLinkState : Type 0 where
  waiting_for_telegram awaiting_confirmation connected expired : TelegramLinkState

-- the state that `GetTelegramLinkStatus.execute` shows
abbrev pub state_of : Instant → TelegramLinkChallenge → TelegramLinkState
state_of now c =
    if is_some c.confirmed_at
    then connected
    else if leb c.expires_at now
    then expired
    else if is_some c.claimed_at
    then awaiting_confirmation
    else waiting_for_telegram

abbrev pub is_seen_by : ℕ → ℕ → TelegramLinkChallenge → Bool
is_seen_by challenge_id web_session_id c =
    c.id == challenge_id && c.initiating_web_session_id == web_session_id

abbrev pub state_option : Instant → Option TelegramLinkChallenge → Option TelegramLinkState
state_option now none = none
state_option now (some c) = some (state_of now c)

-- `challenge_for_session` and `GetTelegramLinkStatus.execute`
unfoldable pub link_status : ℕ → ℕ → Instant → Store → Option TelegramLinkState
link_status challenge_id web_session_id now s =
    state_option now (find (is_seen_by challenge_id web_session_id) s.link_challenges)
