-- ===== src/Authentication/Sessions/Laws.antt =====
-- What sessions guarantee: they last 30 days, a revoked one never authenticates again, and logging out
-- ends the session of the secret.
use mathlib.Core.Option.{some-injective}
use mint_flow.Prelude.{
  ℕ, ◌≡◌, ◌≢◌, refl, sym, ap, ◌∙◌, ==_refl, Bool, true, false, none, some, is_none, List, [], ◌∷◌,
  ◌==◌, ◌&&◌, ltb, find, All, arith, if◌then◌else◌, Bool-cases, inl, inr,
}
use mint_flow.Prelude.Datetime.{Instant}
use mint_flow.Prelude.Result.{ok}
use mint_flow.Authentication.Store.{Store, WebSession}
use mint_flow.Authentication.Sessions.{
  same_session, add_session, is_authentic, as_authenticated, AuthenticatedWebSession, authenticate,
  revoke_rows, revoke, revoke_all, may_revoke, of_user,
}

pub add_session-eq-ok :
    (new : WebSession) (s : Store) {s' : Store}
    → add_session new s ≡ ok s'
    → (find (same_session new) s.sessions ≡ none) × (s' ≡ record s { sessions = new ∷ s.sessions })
unfolding add_session
add_session-eq-ok new s h = ground arith

abbrev Revoked : ℕ → WebSession → Type 0
Revoked k w = (w.id == k) ≡ true → is_none w.revoked_at ≡ false

-- The rows have one of the id, and all of these are revoked.
abbrev pub has_id : ℕ → List WebSession → Bool
has_id k [] = false
has_id k (w ∷ rows) = if w.id == k then true else has_id k rows

revoke_rows-Revoked :
    (chosen : WebSession → Bool) (at : Instant) (k : ℕ) (rows : List WebSession)
    → All (Revoked k) rows
    → All (Revoked k) (revoke_rows chosen at rows)
revoke_rows-Revoked chosen at k [] h = h
revoke_rows-Revoked chosen at k (w ∷ rows) (h, hs) =
    (keep (chosen w), revoke_rows-Revoked chosen at k rows hs)
  where
    keep : (b : Bool) → Revoked k (if b then record w { revoked_at = some at } else w)
    keep true = λ e. refl
    keep false = h

revoke_rows-has_id :
    (chosen : WebSession → Bool) (at : Instant) (k : ℕ) (rows : List WebSession)
    → has_id k (revoke_rows chosen at rows) ≡ has_id k rows
revoke_rows-has_id chosen at k [] = refl
revoke_rows-has_id chosen at k (w ∷ rows) =
    rw (same (chosen w), revoke_rows-has_id chosen at k rows) refl
  where
    same : (b : Bool) → (if b then record w { revoked_at = some at } else w).id ≡ w.id
    same true = refl
    same false = refl

revoked_now :
    (at : Instant) (k : ℕ) (rows : List WebSession)
    → All (Revoked k) (revoke_rows (may_revoke k) at rows)
revoked_now at k [] = tt
revoked_now at k (w ∷ rows) = (λ e. ground arith, revoked_now at k rows)

id_is_new :
    (new : WebSession) (k : ℕ) (rows : List WebSession)
    → find (same_session new) rows ≡ none
    → has_id k rows ≡ true
    → (new.id == k) ≡ false
id_is_new new k [] free h = cc
id_is_new new k (w ∷ rows) free h = ground (arith, id_is_new new k rows)

-- A session of the id exists, and it is revoked.
pub record IsGone (k : ℕ) (s : Store) : Type 0 where
  pub exists : has_id k s.sessions ≡ true
  pub revoked : All (Revoked k) s.sessions

-- The operations on sessions, in any order and number.
pub data Step : Store → Store → Type 0 where
  added : {s s' : Store} (new : WebSession) → add_session new s ≡ ok s' → Step s s'
  revoked_one :
      {s s' : Store} {b : Bool} (session_id : ℕ) (at : Instant)
      → revoke session_id at s ≡ (b, s')
      → Step s s'
  revoked_all :
      {s s' : Store} {n : ℕ} (user_id : ℕ) (at : Instant)
      → revoke_all user_id at s ≡ (n, s')
      → Step s s'

pub data Reach : Store → Store → Type 0 where
  here : {s : Store} → Reach s s
  next : {s s' s'' : Store} → Reach s s' → Step s' s'' → Reach s s''

after_add :
    (k : ℕ) (new : WebSession) (s : Store) {s' : Store}
    → add_session new s ≡ ok s'
    → IsGone k s
    → IsGone k s'
after_add k new s h gone =
    let (free, writes) = add_session-eq-ok new s h in
    let other = id_is_new new k s.sessions free gone.exists in
    rw writes (record {
      exists = rw (other, gone.exists) refl;
      revoked = (λ e. ground arith, gone.revoked);
    })

after_revoking :
    (k : ℕ) (chosen : WebSession → Bool) (at : Instant) (s s' : Store)
    → s'.sessions ≡ revoke_rows chosen at s.sessions
    → IsGone k s
    → IsGone k s'
after_revoking k chosen at s s' writes gone = record {
  exists = rw writes (rw (revoke_rows-has_id chosen at k s.sessions) gone.exists);
  revoked = rw writes (revoke_rows-Revoked chosen at k s.sessions gone.revoked);
}

Step-IsGone : (k : ℕ) {s s' : Store} → Step s s' → IsGone k s → IsGone k s'
unfolding revoke revoke_all
Step-IsGone k {s = s} (Step.added new h) gone = after_add k new s h gone
Step-IsGone k {s = s} {s' = s'} (Step.revoked_one session_id at h) gone =
    after_revoking k (may_revoke session_id) at s s' (ground arith) gone
Step-IsGone k {s = s} {s' = s'} (Step.revoked_all user_id at h) gone =
    after_revoking k (of_user user_id) at s s' (ground arith) gone

Reach-IsGone : (k : ℕ) {s s' : Store} → Reach s s' → IsGone k s → IsGone k s'
Reach-IsGone k here gone = gone
Reach-IsGone k (next before step) gone = Step-IsGone k step (Reach-IsGone k before gone)

third : (b c d e : Bool) → (b && (c && (d && e))) ≡ true → c ≡ true
third b c d e h = ground arith

same_id :
    (w : WebSession) {a : AuthenticatedWebSession}
    → as_authenticated (some w) ≡ some a
    → a.session_id ≡ w.id
same_id w {a = a} h =
    ap (λ (x : AuthenticatedWebSession). x.session_id) (sym (some-injective _ a h))

gone_row :
    (k : ℕ) (st : Store) (secret_hash : ℕ) (now : Instant) (rows : List WebSession)
    {a : AuthenticatedWebSession}
    → All (Revoked k) rows
    → as_authenticated (find (is_authentic st secret_hash now) rows) ≡ some a
    → a.session_id ≢ k
gone_row k st secret_hash now [] gone h e = cc
gone_row k st secret_hash now (w ∷ rows) (g, gone) h e =
    elim (Bool-cases (is_authentic st secret_hash now w)) [
      | inl this ↦
          let valid = third (w.secret_hash == secret_hash) _ (ltb now w.expires_at) _ this in
          unrevoked valid (g (rw (sym (same_id w (rw this at h)) ∙ e) (==_refl k)))
      | inr other ↦ gone_row k st secret_hash now rows gone (rw other at h) e
    ]
  where
    unrevoked : is_none w.revoked_at ≡ true → is_none w.revoked_at ≡ false → ⊥
    unrevoked p q = cc

-- Once a session has been revoked, nobody authenticates as it again, with whatever secret, at
-- whatever time and after whatever sessions are added and revoked.
pub revoked_never_authenticates :
    (session_id secret_hash : ℕ) (at now : Instant) (s : Store) {b : Bool} {s' s'' : Store}
    {a : AuthenticatedWebSession}
    → has_id session_id s.sessions ≡ true
    → revoke session_id at s ≡ (b, s')
    → Reach s' s''
    → authenticate secret_hash now s'' ≡ some a
    → a.session_id ≢ session_id
unfolding revoke authenticate
revoked_never_authenticates session_id secret_hash at now s {s' = s'} {s'' = s''} known h steps
      found =
    let writes : s'.sessions ≡ revoke_rows (may_revoke session_id) at s.sessions = ground arith in
    let gone : IsGone session_id s' = record {
      exists =
          rw writes
            (rw (revoke_rows-has_id (may_revoke session_id) at session_id s.sessions) known);
      revoked = rw writes (revoked_now at session_id s.sessions);
    } in
    gone_row session_id s'' secret_hash now s''.sessions
      (Reach-IsGone session_id steps gone).revoked found
