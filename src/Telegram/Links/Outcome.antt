-- ===== src/Telegram/Links/Outcome.antt =====
-- What a confirmation and a claim that return have done to the tables.
use mathlib.Core.Path.{subst}
use mint_flow.Prelude.{
  ℕ, ◌≡◌, refl, sym, Bool, true, false, Option, none, some, is_some, ◌∷◌, find, map, if◌then◌else◌,
}
use mint_flow.Prelude.Datetime.{Instant}
use mint_flow.Prelude.Result.{ok, ok_injective}
use mint_flow.Authentication.Store.{
  Store, TelegramConnection, TelegramLinkChallenge, telegram_linked, add_audit,
}
use mint_flow.Telegram.Links.{link_audit}
use mint_flow.Telegram.Links.Confirming.{
  same_connection, confirm, confirm_found, with_telegram, insert_connection, new_connection,
  is_confirmable, is_valid_session, confirm_row, claimed_later,
}

-- the tables after the challenge `c` was confirmed as the connection `k`
abbrev pub linked_store : TelegramLinkChallenge → TelegramConnection → Instant → Store → Store
linked_store c k now s =
    add_audit (link_audit telegram_linked c.initiating_user_id k.id now) (record s {
      connections = k ∷ s.connections;
      link_challenges = map (confirm_row c.id now) s.link_challenges;
    })

-- the connection that confirming `c`, which `telegram_user_id` claimed, makes
abbrev pub connection_of : ℕ → TelegramLinkChallenge → ℕ → Instant → TelegramConnection
connection_of fresh c telegram_user_id now =
    new_connection fresh c.initiating_user_id telegram_user_id c.claimed_telegram_display_name now

-- A confirmation that returns has changed nothing, or has linked the account that claimed the
-- challenge with the user that began it, in a valid session, where neither was linked.
pub data Confirmed (challenge_id web_session_id fresh : ℕ) (now : Instant) (s : Store)
    : Option TelegramConnection → Store → Type 0 where
  refused : Confirmed challenge_id web_session_id fresh now s none s
  linked :
      (c : TelegramLinkChallenge) (telegram_user_id : ℕ)
      → find (is_confirmable challenge_id web_session_id now) s.link_challenges ≡ some c
      → c.claimed_telegram_user_id ≡ some telegram_user_id
      → is_some (find (is_valid_session web_session_id c.initiating_user_id now s) s.sessions)
        ≡ true
      → find (same_connection (connection_of fresh c telegram_user_id now)) s.connections ≡ none
      → Confirmed challenge_id web_session_id fresh now s
          (some (connection_of fresh c telegram_user_id now))
          (linked_store c (connection_of fresh c telegram_user_id now) now s)

module _ (challenge_id web_session_id fresh : ℕ) (now : Instant) (s : Store) where
  abbrev Target : Option TelegramConnection × Store → Type 0
  Target (r, s') = Confirmed challenge_id web_session_id fresh now s r s'

  inserting :
      (c : TelegramLinkChallenge) (telegram_user_id : ℕ) (o : Option TelegramConnection) (b : Bool)
      {p : Option TelegramConnection × Store}
      → claimed_later c.claimed_at now ≡ b
      → find (is_confirmable challenge_id web_session_id now) s.link_challenges ≡ some c
      → c.claimed_telegram_user_id ≡ some telegram_user_id
      → is_some (find (is_valid_session web_session_id c.initiating_user_id now s) s.sessions)
        ≡ true
      → find (same_connection (connection_of fresh c telegram_user_id now)) s.connections ≡ o
      → insert_connection o c (connection_of fresh c telegram_user_id now) now s ≡ ok p
      → Target p
  inserting c t (some row) b e found tg valid free h = subst Target (sym (ok_injective h)) refused
  inserting c t none true e found tg valid free h = cc
  inserting c t none false e found tg valid free h =
      subst Target (sym (ok_injective (rw e at h))) (linked c t found tg valid free)

  in_session :
      (c : TelegramLinkChallenge) (telegram_user_id : ℕ) (b : Bool)
      {p : Option TelegramConnection × Store}
      → find (is_confirmable challenge_id web_session_id now) s.link_challenges ≡ some c
      → c.claimed_telegram_user_id ≡ some telegram_user_id
      → is_some (find (is_valid_session web_session_id c.initiating_user_id now s) s.sessions) ≡ b
      → (if b
          then insert_connection
              (find (same_connection (connection_of fresh c telegram_user_id now)) s.connections)
              c
              (connection_of fresh c telegram_user_id now)
              now
              s
          else ok (none, s))
        ≡ ok p
      → Target p
  in_session c t true found tg valid h =
      inserting c t (find (same_connection (connection_of fresh c t now)) s.connections)
        (claimed_later c.claimed_at now) refl found tg valid refl h
  in_session c t false found tg valid h = subst Target (sym (ok_injective h)) refused

  of_account :
      (c : TelegramLinkChallenge) (o : Option ℕ) {p : Option TelegramConnection × Store}
      → find (is_confirmable challenge_id web_session_id now) s.link_challenges ≡ some c
      → c.claimed_telegram_user_id ≡ o
      → with_telegram o c web_session_id fresh now s ≡ ok p
      → Target p
  of_account c none found tg h = subst Target (sym (ok_injective h)) refused
  of_account c (some t) found tg h =
      in_session c t
        (is_some (find (is_valid_session web_session_id c.initiating_user_id now s) s.sessions))
        found tg refl h

  of_challenge :
      (o : Option TelegramLinkChallenge) {p : Option TelegramConnection × Store}
      → find (is_confirmable challenge_id web_session_id now) s.link_challenges ≡ o
      → confirm_found o web_session_id fresh now s ≡ ok p
      → Target p
  of_challenge none found h = subst Target (sym (ok_injective h)) refused
  of_challenge (some c) found h = of_account c c.claimed_telegram_user_id found refl h

  pub confirm-Confirmed :
      {r : Option TelegramConnection} {s' : Store}
      → confirm challenge_id web_session_id fresh now s ≡ ok (r, s')
      → Confirmed challenge_id web_session_id fresh now s r s'
  unfolding confirm
  confirm-Confirmed h =
      of_challenge (find (is_confirmable challenge_id web_session_id now) s.link_challenges) refl h
