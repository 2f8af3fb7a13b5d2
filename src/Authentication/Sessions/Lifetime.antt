-- ===== src/Authentication/Sessions/Lifetime.antt =====
-- How long a secret signs in: for 30 days.
use mathlib.Core.Path.{subst}
use mint_flow.Prelude.{
  ==_refl, ℕ, ◌+◌, ◌≡◌, refl, ap, ◌∙◌, Bool, true, false, none, some, is_none, List, [], ◌∷◌, ◌==◌,
  ◌&&◌, ltb, find, arith, if◌then◌else◌, Bool-cases, inl, inr,
}
use mint_flow.Prelude.Datetime.{Datetime, Instant, is_aware, astimezone_utc}
use mint_flow.Prelude.Result.{ok}
use mint_flow.Authentication.Store.{Store, WebSession, is_active_user}
use mint_flow.Authentication.Sessions.{
  same_session, add_session, is_authentic, as_authenticated, authenticate, new_web_session,
  check_session, web_session_lifetime,
}
use mint_flow.Authentication.Sessions.Laws.{add_session-eq-ok}

abbrev pub has_hash : ℕ → WebSession → Bool
has_hash h w = w.secret_hash == h

module _ (st : Store) (h : ℕ) (t : Instant) where
  pub not_authentic : (w : WebSession) → has_hash h w ≡ false → is_authentic st h t w ≡ false
  not_authentic w other = rw other

  pub revoked_row : (w : WebSession) → is_none w.revoked_at ≡ false → is_authentic st h t w ≡ false
  revoked_row w gone = at_hash (has_hash h w) gone
    where
      at_hash :
          (b : Bool)
          → is_none w.revoked_at ≡ false
          → (b && (is_none w.revoked_at && (ltb t w.expires_at && is_active_user w.user_id st)))
            ≡ false
      at_hash true p = rw p
      at_hash false p = refl

  pub authentic_is_hash :
      (rows : List WebSession)
      → find (has_hash h) rows ≡ none
      → find (is_authentic st h t) rows ≡ none
  authentic_is_hash [] free = refl
  authentic_is_hash (w ∷ rows) free = elim (Bool-cases (has_hash h w)) [
    | inl same ↦ absurd (rw same at free)
    | inr other ↦ rw (not_authentic w other) (authentic_is_hash rows (rw other at free))
  ]
    where
      absurd : some w ≡ none → find (is_authentic st h t) (w ∷ rows) ≡ none
      absurd p = cc

  -- the row in front answers, if it is authentic and the only one of its digest
  front_answers :
      (w : WebSession) (rows : List WebSession) (c : Bool)
      → is_authentic st h t w ≡ c
      → find (is_authentic st h t) rows ≡ none
      → as_authenticated (find (is_authentic st h t) (w ∷ rows))
        ≡ (if c then some (record { session_id = w.id; user_id = w.user_id }) else none)
  front_answers w rows true p free = rw p refl
  front_answers w rows false p free = rw (p, free) refl

pub free_hash :
    (new : WebSession) (rows : List WebSession)
    → find (same_session new) rows ≡ none
    → find (has_hash new.secret_hash) rows ≡ none
free_hash new [] free = refl
free_hash new (w ∷ rows) free = ground (arith, free_hash new rows)

new_web_session-eq-ok :
    (fresh secret_hash user_id : ℕ) (issued : Datetime) {w : WebSession}
    → new_web_session fresh secret_hash user_id issued ≡ ok w
    → w ≡ record {
      id = fresh;
      user_id = user_id;
      secret_hash = secret_hash;
      issued_at = astimezone_utc issued;
      expires_at = astimezone_utc issued + web_session_lifetime;
      revoked_at = none;
    }
unfolding new_web_session check_session
new_web_session-eq-ok fresh secret_hash user_id issued h = ground arith

-- `new_web_session` never fails at a time that has an offset.
new_web_session-total :
    (fresh secret_hash user_id : ℕ) (issued : Datetime)
    → is_aware issued ≡ true
    → (w : WebSession) × (new_web_session fresh secret_hash user_id issued ≡ ok w)
unfolding new_web_session check_session
new_web_session-total fresh secret_hash user_id issued aware = (
  record {
    id = fresh;
    user_id = user_id;
    secret_hash = secret_hash;
    issued_at = astimezone_utc issued;
    expires_at = astimezone_utc issued + web_session_lifetime;
    revoked_at = none;
  },
  ground arith,
)

-- A new session, once stored, is authenticated by its secret exactly for the 30 days from its issue
-- and while its user is active, and then as the session and the user it was issued for.
pub signed_in_for_30_days :
    (fresh secret_hash user_id : ℕ) (issued : Datetime) (now : Instant) (s : Store) {w : WebSession}
    {s' : Store}
    → new_web_session fresh secret_hash user_id issued ≡ ok w
    → add_session w s ≡ ok s'
    → authenticate secret_hash now s' ≡ (
        if ltb now (astimezone_utc issued + web_session_lifetime) && is_active_user user_id s'
        then some (record { session_id = fresh; user_id = user_id })
        else none)
unfolding authenticate
signed_in_for_30_days fresh secret_hash user_id issued now s {w = w} {s' = s'} new stored =
    let made = new_web_session-eq-ok fresh secret_hash user_id issued new in
    let (free, writes) = add_session-eq-ok w s stored in
    let valid : is_authentic s' secret_hash now w
        ≡ (ltb now (astimezone_utc issued + web_session_lifetime) && is_active_user user_id s') =
      rw (made, ==_refl secret_hash) refl in
    let answer = front_answers s' secret_hash now w s.sessions _ valid (
      authentic_is_hash s' secret_hash now s.sessions (
        subst (λ n. find (has_hash n) s.sessions ≡ none)
          (ap (λ (x : WebSession). x.secret_hash) made) (free_hash w s.sessions free))) in
    ap (λ (x : Store). as_authenticated (find (is_authentic s' secret_hash now) x.sessions)) writes
    ∙ answer
    ∙ ap
        (λ (x : WebSession).
          if ltb now (astimezone_utc issued + web_session_lifetime) && is_active_user user_id s'
          then some (record { session_id = x.id; user_id = x.user_id })
          else none)
        made
