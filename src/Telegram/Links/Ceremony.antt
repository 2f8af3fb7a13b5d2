-- ===== src/Telegram/Links/Ceremony.antt =====
-- What confirming gives, and that a challenge is confirmed once.
use mathlib.Core.Option.{some-injective}
use mathlib.Core.Path.{subst}
use mint_flow.Prelude.{
  ℕ, ◌≡◌, refl, ap, ◌∙◌, Bool, true, false, Option, none, some, is_some, List, [], ◌∷◌, ◌==◌, find,
  map, find_satisfies, arith, if◌then◌else◌, ==_refl,
}
use mint_flow.Prelude.Datetime.{Instant}
use mint_flow.Prelude.Result.{ok}
use mint_flow.Authentication.Store.{Store, TelegramConnection, TelegramLinkChallenge}
use mint_flow.Telegram.Links.{active_connection_for_telegram_user, active_connection_for_user}
use mint_flow.Telegram.Links.Confirming.{
  confirm, is_confirmable, confirm_row, is_valid_session, same_connection,
}
use mint_flow.Telegram.Links.Views.{is_seen_by, link_status, connected, state_option}
use mint_flow.Telegram.Links.Outcome.{
  Confirmed, refused, linked, confirm-Confirmed, connection_of, linked_store,
}

confirmed_rows :
    (challenge_id web_session_id : ℕ) (now later : Instant) (rows : List TelegramLinkChallenge)
    → find
        (is_confirmable challenge_id web_session_id later)
        (map (confirm_row challenge_id now) rows)
      ≡ none
confirmed_rows challenge_id web_session_id now later [] = refl
confirmed_rows challenge_id web_session_id now later (c ∷ rows) =
    rw (at_row (c.id == challenge_id) refl)
      (confirmed_rows challenge_id web_session_id now later rows)
  where
    at_row :
        (b : Bool)
        → (c.id == challenge_id) ≡ b
        → is_confirmable challenge_id web_session_id later
            (if b then record c { confirmed_at = some now } else c)
          ≡ false
    at_row true e = ground arith
    at_row false e = rw e refl

confirmable_id :
    (challenge_id web_session_id : ℕ) (now : Instant) (c : TelegramLinkChallenge)
    → is_confirmable challenge_id web_session_id now c ≡ true
    → (c.id ≡ challenge_id) × (is_seen_by challenge_id web_session_id c ≡ true)
confirmable_id challenge_id web_session_id now c h = ground arith

seen_rows :
    (challenge_id web_session_id : ℕ) (now later : Instant) (rows : List TelegramLinkChallenge)
    {c : TelegramLinkChallenge}
    → find (is_confirmable challenge_id web_session_id now) rows ≡ some c
    → state_option later
        (find (is_seen_by challenge_id web_session_id) (map (confirm_row challenge_id now) rows))
      ≡ some connected
seen_rows challenge_id web_session_id now later [] found = cc
seen_rows challenge_id web_session_id now later (r ∷ rows) {c = c} found =
    go (is_confirmable challenge_id web_session_id now r) (is_seen_by challenge_id web_session_id r)
      refl refl (λ f. seen_rows challenge_id web_session_id now later rows f) found
  where
    seen_kept :
        (b : Bool)
        → is_seen_by challenge_id web_session_id
            (if b then record r { confirmed_at = some now } else r)
          ≡ is_seen_by challenge_id web_session_id r
    seen_kept true = refl
    seen_kept false = refl

    confirmed_row :
        is_seen_by challenge_id web_session_id r ≡ true
        → state_option later (
            find
              (is_seen_by challenge_id web_session_id)
              (map (confirm_row challenge_id now) (r ∷ rows)))
          ≡ some connected
    confirmed_row p = ground arith

    go :
        (p q : Bool)
        → is_confirmable challenge_id web_session_id now r ≡ p
        → is_seen_by challenge_id web_session_id r ≡ q
        → (find (is_confirmable challenge_id web_session_id now) rows ≡ some c
            → state_option later (
                find
                  (is_seen_by challenge_id web_session_id)
                  (map (confirm_row challenge_id now) rows))
              ≡ some connected)
        → (if p then some r else find (is_confirmable challenge_id web_session_id now) rows)
          ≡ some c
        → state_option later (
            find
              (is_seen_by challenge_id web_session_id)
              (map (confirm_row challenge_id now) (r ∷ rows)))
          ≡ some connected
    go true q e e' rest f = confirmed_row ((confirmable_id challenge_id web_session_id now r e).1)
    go false true e e' rest f = confirmed_row e'
    go false false e e' rest f = rw (seen_kept (r.id == challenge_id) ∙ e') (rest f)

-- What a confirmed link is: the user who began the challenge in the session of the caller and the
-- account that claimed it, now linked with each other.
pub record Links (challenge_id web_session_id : ℕ) (now : Instant) (s : Store)
    (k : TelegramConnection) (s' : Store) : Type 0 where
  pub challenge : TelegramLinkChallenge
  pub found :
      find (is_confirmable challenge_id web_session_id now) s.link_challenges ≡ some challenge
  pub user : k.user_id ≡ challenge.initiating_user_id
  pub account : challenge.claimed_telegram_user_id ≡ some k.telegram_user_id
  pub session : is_some (find (is_valid_session web_session_id k.user_id now s) s.sessions) ≡ true
  pub linked_user : active_connection_for_user k.user_id s' ≡ some k
  pub linked_account : active_connection_for_telegram_user k.telegram_user_id s' ≡ some k
  pub apart : find (same_connection k) s.connections ≡ none

Confirmed-Links :
    {challenge_id web_session_id fresh : ℕ} {now : Instant} {s s' : Store}
    {r : Option TelegramConnection} (k : TelegramConnection)
    → Confirmed challenge_id web_session_id fresh now s r s'
    → r ≡ some k
    → Links challenge_id web_session_id now s k s'
unfolding active_connection_for_user active_connection_for_telegram_user
Confirmed-Links k refused e = cc
Confirmed-Links {challenge_id = challenge_id} {web_session_id = web_session_id} {fresh = fresh}
      {now = now} {s = s} k (linked c t found claimed valid free) e =
    subst
      (λ x.
        Links challenge_id web_session_id now s x
          (linked_store c (connection_of fresh c t now) now s))
      (some-injective (connection_of fresh c t now) k e)
      (record {
        challenge = c;
        found = found;
        user = refl;
        account = claimed;
        session = valid;
        linked_user = rw (==_refl c.initiating_user_id) refl;
        linked_account = rw (==_refl t) refl;
        apart = free;
      })

-- A confirmation that gives a connection gives the one of the user who began the challenge in this
-- session, which is valid, with the account that claimed it, where neither had a connection; from
-- then on each of the two is found under the other.
pub confirm-Links :
    (challenge_id web_session_id fresh : ℕ) (now : Instant) (s : Store) (k : TelegramConnection)
    {s' : Store}
    → confirm challenge_id web_session_id fresh now s ≡ ok (some k, s')
    → Links challenge_id web_session_id now s k s'
confirm-Links challenge_id web_session_id fresh now s k h =
    Confirmed-Links k (confirm-Confirmed challenge_id web_session_id fresh now s h) refl

Confirmed-rows :
    {challenge_id web_session_id fresh : ℕ} {now : Instant} {s s' : Store}
    {r : Option TelegramConnection} (k : TelegramConnection)
    → Confirmed challenge_id web_session_id fresh now s r s'
    → r ≡ some k
    → s'.link_challenges ≡ map (confirm_row challenge_id now) s.link_challenges
Confirmed-rows k refused e = cc
Confirmed-rows {challenge_id = challenge_id} {web_session_id = web_session_id} {now = now} {s = s} k
      (linked c t found claimed valid free) e =
    let (id, _) =
      confirmable_id challenge_id web_session_id now c
        (find_satisfies (is_confirmable challenge_id web_session_id now) s.link_challenges found) in
    ap (λ n. map (confirm_row n now) s.link_challenges) id

-- A challenge is confirmed once: after a confirmation gave a connection, another one of the same
-- challenge, in whatever session and at whatever time, gives none and changes nothing; and the
-- session sees the challenge as connected at any time.
pub confirm_once :
    (challenge_id web_session_id other fresh again : ℕ) (now later : Instant) (s : Store)
    (k : TelegramConnection) {s' : Store}
    → confirm challenge_id web_session_id fresh now s ≡ ok (some k, s')
    → (confirm challenge_id other again later s' ≡ ok (none, s'))
      × (link_status challenge_id web_session_id later s' ≡ some connected)
unfolding confirm link_status
confirm_once challenge_id web_session_id other fresh again now later s k {s' = s'} h =
    let c = confirm-Confirmed challenge_id web_session_id fresh now s h in
    let rows = Confirmed-rows k c refl in
    let links = Confirmed-Links k c refl in
    (
      rw (rows, confirmed_rows challenge_id other now later s.link_challenges) refl,
      rw rows (seen_rows challenge_id web_session_id now later s.link_challenges links.found),
    )
