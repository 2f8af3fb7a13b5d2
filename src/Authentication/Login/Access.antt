-- ===== src/Authentication/Login/Access.antt =====
-- A sign-in link opens a session of its address's owner.
use mathlib.Core.Option.{some-injective}
use mathlib.Core.Path.{subst}
use mint_flow.Prelude.{
  ℕ, ◌+◌, ◌≡◌, refl, sym, ap, ◌∙◌, Bool, true, false, Option, none, some, is_some, List, [], ◌∷◌,
  ◌==◌, ◌&&◌, ltb, find, if◌then◌else◌, Bool-cases, inl, inr,
}
use mint_flow.Prelude.Datetime.{Instant, aware}
use mint_flow.Prelude.Int.{pos}
use mint_flow.Prelude.Result.{ok}
use mint_flow.Authentication.Login.{
  MagicLinkConsumptionResult, Drawn, is_consumable, has_email, has_user_id, with_challenge, marked,
  consume,
}
use mint_flow.Authentication.Sessions.{authenticate, web_session_lifetime}
use mint_flow.Authentication.Sessions.Lifetime.{signed_in_for_30_days}
use mint_flow.Authentication.Store.{Store, LoginChallenge, EmailIdentity, is_active_user, active_in}
use mint_flow.Domain.User
use mint_flow.Domain.User.{User}
use mint_flow.Authentication.Login.Ending.{
  Opened, Ended, refused, signed_in, with_session, with_user-Ended,
}

active_row :
    (k : ℕ) (users : List User) {u : User}
    → find (has_user_id k) users ≡ some u
    → User.is_active u.status ≡ true
    → is_some (find (active_in k) users) ≡ true
active_row k [] h a = cc
active_row k (v ∷ users) {u = u} h a = elim (Bool-cases (v.id == k)) [
  | inl e ↦
      let same = some-injective v u (rw e at h) in
      rw (e, ap (λ (x : User). User.is_active x.status) same ∙ a) refl
  | inr e ↦ rw e (active_row k users (rw e at h) a)
]

-- What a link that is accepted gives.
pub record Accepted (c : LoginChallenge) (at : Instant) (drawn : Drawn) (user_id : ℕ)
    (later : Instant) (s' : Store) : Type 0 where
  pub owner : EmailIdentity
  pub owner_found : find (has_email c.canonical_email) s'.identities ≡ some owner
  pub owner_id : owner.user_id ≡ user_id
  pub active : is_active_user user_id s' ≡ true
  pub authenticated : authenticate drawn.secret_hash later s' ≡ (
      if ltb later (at + web_session_lifetime)
      then some (record { session_id = drawn.session_id; user_id = user_id })
      else none)

and_true : (b : Bool) {c : Bool} → c ≡ true → (b && c) ≡ b
and_true true h = h
and_true false h = refl

authenticate_tables :
    (h : ℕ) (t : Instant) (s s' : Store)
    → s'.sessions ≡ s.sessions
    → s'.users ≡ s.users
    → authenticate h t s' ≡ authenticate h t s
unfolding authenticate
authenticate_tables h t s s' e e' = rw (e, e') refl

Opened-Accepted :
    (c : LoginChallenge) (at : Instant) (drawn : Drawn) (later : Instant) (s1 : Store) (u : User)
    {r : MagicLinkConsumptionResult} {s' : Store}
    → Opened c at drawn u.id s1 r s'
    → User.is_active u.status ≡ true
    → find (has_user_id u.id) s1.users ≡ some u
    → (i : EmailIdentity) → find (has_email c.canonical_email) s1.identities ≡ some i
    → i.user_id ≡ u.id
    → Accepted c at drawn u.id later s'
Opened-Accepted c at drawn later s1 u {s' = s'} opened active found i owner same =
    let on = active_row u.id s1.users found active in
    record {
      owner = i;
      owner_found = rw (opened.identities) owner;
      owner_id = same;
      active = rw (opened.users) on;
      authenticated =
          authenticate_tables drawn.secret_hash later (with_session at drawn u.id s1) s'
            opened.sessions opened.users
          ∙ signed_in_for_30_days drawn.session_id drawn.secret_hash u.id (aware at (pos 0)) later
              s1 opened.made opened.stored
          ∙ ap
              (λ b.
                if b then some (record { session_id = drawn.session_id; user_id = u.id }) else none)
              (and_true (ltb later (at + web_session_lifetime)) on);
    }

Ended-Accepted :
    {c : LoginChallenge} {at : Instant} {drawn : Drawn} {s : Store} {r : MagicLinkConsumptionResult}
    {s' : Store} (user_id : ℕ) (later : Instant)
    → Ended c at drawn s r s'
    → r.identity ≡ some user_id
    → Accepted c at drawn user_id later s'
Ended-Accepted user_id later refused e = cc
Ended-Accepted {c = c} {at = at} {drawn = drawn} {s' = s'} user_id later
      (signed_in u s1 opened active found i owner same kept) e =
    subst (λ n. Accepted c at drawn n later s')
      (some-injective u.id user_id (sym opened.identity ∙ e))
      (Opened-Accepted c at drawn later s1 u opened active found i owner same)

-- A use of a link that signs a user in was one of an unspent, unexpired challenge; the user is
-- active and is the one whose identity has the challenge's address; and from then on the secret
-- that was drawn authenticates as this user and the new session, for 30 days from the use.
pub consume-Accepted :
    (token_hash : ℕ) (at later : Instant) (drawn : Drawn) (s : Store) (user_id : ℕ)
    {r : MagicLinkConsumptionResult} {s' : Store}
    → consume token_hash at drawn s ≡ ok (r, s')
    → r.identity ≡ some user_id
    → (c : LoginChallenge) × (find (is_consumable token_hash at) s.login_challenges ≡ some c)
      × Accepted c at drawn user_id later s'
unfolding consume
consume-Accepted token_hash at later drawn s user_id {r = r} {s' = s'} h e =
    go (find (is_consumable token_hash at) s.login_challenges) refl h
  where
    go :
        (o : Option LoginChallenge)
        → find (is_consumable token_hash at) s.login_challenges ≡ o
        → with_challenge o at drawn (marked token_hash at s) ≡ ok (r, s')
        → (c : LoginChallenge) × (find (is_consumable token_hash at) s.login_challenges ≡ some c)
          × Accepted c at drawn user_id later s'
    go none p k = cc
    go (some c) p k = (
      c,
      p,
      Ended-Accepted user_id later
          (with_user-Ended (find (has_email c.canonical_email) s.identities) c at drawn
            (marked token_hash at s) refl k)
          e,
    )
