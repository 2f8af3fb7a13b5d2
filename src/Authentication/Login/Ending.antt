-- ===== src/Authentication/Login/Ending.antt =====
-- How a use of a sign-in link ends.
use mathlib.Core.Path.{subst}
use mint_flow.Prelude.{
  ℕ, ◌+◌, ◌≡◌, refl, sym, Bool, true, false, Option, none, some, List, ◌∷◌, find, find_satisfies,
  arith, if◌then◌else◌, ==_refl,
}
use mint_flow.Prelude.Datetime.{Instant, aware}
use mint_flow.Prelude.Int.{pos}
use mint_flow.Prelude.Result.{Result, ok, err, ok_injective, ok_of_bind}
use mint_flow.Prelude.Text.{Text, text_eq_refl}
use mint_flow.Authentication.Login.{
  MagicLinkConsumptionResult, invalid_result, Drawn, failure, has_email, has_user_id,
  user_of_identity, sign_up, open_session, sign_in, default_settings, new_identity, lift,
}
use mint_flow.Authentication.Sessions.{
  new_web_session, add_session, check_session, web_session_lifetime,
}
use mint_flow.Authentication.Store.{Store, LoginChallenge, WebSession, EmailIdentity, add_audit}
use mint_flow.Domain.Errors.{ValueError}
use mint_flow.Domain.User
use mint_flow.Domain.User.{User}

lift-eq-ok : {A : Type 0} (r : Result ValueError A) {a : A} → lift r ≡ ok a → r ≡ ok a
lift-eq-ok (ok x) h = cc
lift-eq-ok (err e) h = cc

-- the row of a new session
abbrev pub new_session : Instant → Drawn → ℕ → WebSession
new_session at drawn user_id = record {
  id = drawn.session_id;
  user_id = user_id;
  secret_hash = drawn.secret_hash;
  issued_at = at;
  expires_at = at + web_session_lifetime;
  revoked_at = none;
}

abbrev pub with_session : Instant → Drawn → ℕ → Store → Store
with_session at drawn user_id s = record s { sessions = new_session at drawn user_id ∷ s.sessions }

-- What opening a session does to the database.
pub record Opened (c : LoginChallenge) (at : Instant) (drawn : Drawn) (user_id : ℕ) (s : Store)
    (r : MagicLinkConsumptionResult) (s' : Store) : Type 0 where
  pub made :
      new_web_session drawn.session_id drawn.secret_hash user_id (aware at (pos 0))
      ≡ ok (new_session at drawn user_id)
  pub stored : add_session (new_session at drawn user_id) s ≡ ok (with_session at drawn user_id s)
  pub identity : r.identity ≡ some user_id
  pub sessions : s'.sessions ≡ new_session at drawn user_id ∷ s.sessions
  pub users : s'.users ≡ s.users
  pub identities : s'.identities ≡ s.identities
  pub login_challenges : s'.login_challenges ≡ s.login_challenges

open_session-Opened :
    (c : LoginChallenge) (at : Instant) (drawn : Drawn) (user_id : ℕ) (s : Store)
    {r : MagicLinkConsumptionResult} {s' : Store}
    → open_session c at drawn user_id s ≡ ok (r, s')
    → Opened c at drawn user_id s r s'
unfolding open_session new_web_session check_session add_session
open_session-Opened c at drawn user_id s h = record {
  made = ground arith;
  stored = ground arith;
  identity = ground arith;
  sessions = ground arith;
  users = ground arith;
  identities = ground arith;
  login_challenges = ground arith;
}

sign_up-eq-ok :
    (email : Text) (at : Instant) (fresh : ℕ) (s : Store) {s' : Store}
    → sign_up email at fresh s ≡ ok s'
    → s' ≡ record s {
      users = User.new_user fresh (aware at (pos 0)) default_settings ∷ s.users;
      identities = new_identity fresh email at ∷ s.identities;
    }
unfolding sign_up User.create User.check_user
sign_up-eq-ok email at fresh s h = ground arith

-- How a sign-in ends: with no session, because the user is not active, or with one of the user that
-- has the address, who is active.
pub data Ended (c : LoginChallenge) (at : Instant) (drawn : Drawn) (s : Store)
    : MagicLinkConsumptionResult → Store → Type 0 where
  refused :
      {user_id : ℕ} → Ended c at drawn s invalid_result (add_audit (failure at (some user_id)) s)
  signed_in :
      {r : MagicLinkConsumptionResult} {s' : Store} (u : User) (s1 : Store)
      → Opened c at drawn u.id s1 r s'
      → User.is_active u.status ≡ true
      → find (has_user_id u.id) s1.users ≡ some u
      → (i : EmailIdentity) → find (has_email c.canonical_email) s1.identities ≡ some i
      → i.user_id ≡ u.id
      → s1.login_challenges ≡ s.login_challenges
      → Ended c at drawn s r s'

row_of :
    (i : EmailIdentity) (users : List User) {u : User}
    → find (has_user_id i.user_id) users ≡ some u
    → i.user_id ≡ u.id
row_of i users {u = u} h = ground (arith, find_satisfies (has_user_id i.user_id) users h)

known_user :
    (c : LoginChallenge) (at : Instant) (drawn : Drawn) (s : Store) (i : EmailIdentity) (u : User)
    {r : MagicLinkConsumptionResult} {s' : Store} (b : Bool)
    → User.is_active u.status ≡ b
    → find (has_email c.canonical_email) s.identities ≡ some i
    → find (has_user_id i.user_id) s.users ≡ some u
    → (if b
        then open_session c at drawn u.id s
        else ok (invalid_result, add_audit (failure at (some u.id)) s))
      ≡ ok (r, s')
    → Ended c at drawn s r s'
known_user c at drawn s i u {r = r} {s' = s'} true p hi hu h =
    let same = row_of i s.users hu in
    signed_in u s (open_session-Opened c at drawn u.id s h) p
      (subst (λ n. find (has_user_id n) s.users ≡ some u) same hu) i hi same refl
known_user c at drawn s i u {r = r} {s' = s'} false p hi hu h =
    subst (λ x. Ended c at drawn s x.0 x.1) (sym (ok_injective h)) refused

abbrev new_row : Instant → Drawn → User
new_row at drawn = User.new_user drawn.user_id (aware at (pos 0)) default_settings

unknown_user :
    (c : LoginChallenge) (at : Instant) (drawn : Drawn) (s : Store) {r : MagicLinkConsumptionResult}
    {s' : Store}
    → sign_in none c at drawn s ≡ ok (r, s')
    → Ended c at drawn s r s'
unknown_user c at drawn s {r = r} {s' = s'} h =
    let (s1, p, h1) = ok_of_bind (sign_up c.canonical_email at drawn.user_id s) _ h in
    go s1 (sign_up-eq-ok c.canonical_email at drawn.user_id s p) h1
  where
    go :
        (s1 : Store)
        → s1 ≡ record s {
          users = new_row at drawn ∷ s.users;
          identities = new_identity drawn.user_id c.canonical_email at ∷ s.identities;
        }
        → open_session c at drawn drawn.user_id s1 ≡ ok (r, s')
        → Ended c at drawn s r s'
    go s1 e k =
        signed_in (new_row at drawn) s1 (open_session-Opened c at drawn drawn.user_id s1 k) refl
          (rw (e, ==_refl drawn.user_id) refl) (new_identity drawn.user_id c.canonical_email at)
          (rw (e, text_eq_refl c.canonical_email) refl) refl (rw e refl)

pub with_user-Ended :
    (o : Option EmailIdentity) (c : LoginChallenge) (at : Instant) (drawn : Drawn) (s : Store)
    {r : MagicLinkConsumptionResult} {s' : Store}
    → find (has_email c.canonical_email) s.identities ≡ o
    → sign_in (user_of_identity o s.users) c at drawn s ≡ ok (r, s')
    → Ended c at drawn s r s'
with_user-Ended none c at drawn s p h = unknown_user c at drawn s h
with_user-Ended (some i) c at drawn s {r = r} {s' = s'} p h =
    go (find (has_user_id i.user_id) s.users) refl h
  where
    go :
        (o : Option User)
        → find (has_user_id i.user_id) s.users ≡ o
        → sign_in o c at drawn s ≡ ok (r, s')
        → Ended c at drawn s r s'
    go none q k = unknown_user c at drawn s k
    go (some u) q k = known_user c at drawn s i u (User.is_active u.status) refl p q k
