-- ===== src/Authentication/Sessions/Logout.antt =====
-- Logging out ends the session of a secret.
use mathlib.Core.Option.{some-injective}
use mathlib.Core.Path.{subst}
use mint_flow.Prelude.{
  ==_iff, ℕ, ◌≡◌, refl, ap, Bool, true, false, Option, none, some, is_none, List, [], ◌∷◌, find,
  none_found, arith, if◌then◌else◌, Bool-cases, inl, inr,
}
use mint_flow.Prelude.Datetime.{Instant}
use mint_flow.Authentication.Store.{Store, WebSession}
use mint_flow.Authentication.Sessions.{
  same_session, is_authentic, as_authenticated, authenticate, revoke_row, revoke_rows, revoke,
  revoke_all, logout, logout_found, id_of, find_session_id, may_revoke, of_user,
}
use mint_flow.Authentication.Sessions.Laws.{
  add_session-eq-ok, Step, Reach, here, next, added, revoked_one, revoked_all,
}
use mint_flow.Authentication.Sessions.Lifetime.{
  has_hash, not_authentic, revoked_row, authentic_is_hash, free_hash,
}

-- Any two sessions differ in id and in digest.
abbrev IsDistinct : List WebSession → Type 0
IsDistinct [] = Unit
IsDistinct (w ∷ rows) = (find (same_session w) rows ≡ none) × IsDistinct rows

module _ (chosen : WebSession → Bool) (at : Instant) where
  revoking_keeps_free :
      (w : WebSession) (rows : List WebSession)
      → find (same_session w) rows ≡ none
      → find (same_session w) (revoke_rows chosen at rows) ≡ none
  revoking_keeps_free w [] free = refl
  revoking_keeps_free w (v ∷ rows) free =
      let (other, free') = none_found (same_session w) v rows free in
      rw (at_row (chosen v) other) (revoking_keeps_free w rows free')
    where
      at_row :
          (b : Bool)
          → same_session w v ≡ false
          → same_session w (if b then record v { revoked_at = some at } else v) ≡ false
      at_row true p = p
      at_row false p = p

  revoking-IsDistinct :
      (rows : List WebSession) → IsDistinct rows → IsDistinct (revoke_rows chosen at rows)
  revoking-IsDistinct [] d = d
  revoking-IsDistinct (w ∷ rows) (free, d) = (at_row (chosen w), revoking-IsDistinct rows d)
    where
      at_row :
          (b : Bool)
          → find
              (same_session (if b then record w { revoked_at = some at } else w))
              (revoke_rows chosen at rows)
            ≡ none
      at_row true = revoking_keeps_free w rows free
      at_row false = revoking_keeps_free w rows free

Step-IsDistinct : {s s' : Store} → Step s s' → IsDistinct s.sessions → IsDistinct s'.sessions
unfolding revoke revoke_all
Step-IsDistinct {s = s} (added new h) d =
    let (free, writes) = add_session-eq-ok new s h in rw writes (free, d)
Step-IsDistinct {s = s} {s' = s'} (revoked_one session_id at h) d =
    subst IsDistinct (ground arith) (revoking-IsDistinct (may_revoke session_id) at s.sessions d)
Step-IsDistinct {s = s} {s' = s'} (revoked_all user_id at h) d =
    subst IsDistinct (ground arith) (revoking-IsDistinct (of_user user_id) at s.sessions d)

Reach-IsDistinct : {s s' : Store} → Reach s s' → IsDistinct s.sessions → IsDistinct s'.sessions
Reach-IsDistinct here d = d
Reach-IsDistinct (next before step) d = Step-IsDistinct step (Reach-IsDistinct before d)

keeps_hash :
    (chosen : WebSession → Bool) (at : Instant) (w : WebSession) (h : ℕ)
    → has_hash h w ≡ false
    → has_hash h (revoke_row chosen at w) ≡ false
keeps_hash chosen at w h other = at_row (chosen w) other
  where
    at_row :
        (b : Bool)
        → has_hash h w ≡ false
        → has_hash h (if b then record w { revoked_at = some at } else w) ≡ false
    at_row true p = p
    at_row false p = p

module _ (st : Store) (h : ℕ) (at t : Instant) where
  -- other rows than the ones of the digest do not answer, whatever is revoked
  others_silent :
      (k : ℕ) (rows : List WebSession)
      → find (has_hash h) rows ≡ none
      → find (is_authentic st h t) (revoke_rows (may_revoke k) at rows) ≡ none
  others_silent k [] free = refl
  others_silent k (w ∷ rows) free =
      let (other, free') = none_found (has_hash h) w rows free in
      rw
        (not_authentic st h t (revoke_row (may_revoke k) at w)
          (keeps_hash (may_revoke k) at w h other))
        (others_silent k rows free')

  revoking_silences :
      (k : ℕ) (rows : List WebSession)
      → IsDistinct rows
      → id_of (find (has_hash h) rows) ≡ some k
      → find (is_authentic st h t) (revoke_rows (may_revoke k) at rows) ≡ none
  revoking_silences k [] d found = cc
  revoking_silences k (w ∷ rows) (free, d) found = elim (Bool-cases (has_hash h w)) [
    | inl same ↦
        same_row (some-injective w.id k (rw same at found)) ((==_iff w.secret_hash h).0 same)
    | inr other ↦
        rw
          (not_authentic st h t (revoke_row (may_revoke k) at w)
            (keeps_hash (may_revoke k) at w h other))
          (revoking_silences k rows d (rw other at found))
  ]
    where
      gone : (j : ℕ) → w.id ≡ j → is_none (revoke_row (may_revoke j) at w).revoked_at ≡ false
      gone j e = ground arith

      same_row :
          w.id ≡ k
          → w.secret_hash ≡ h
          → find (is_authentic st h t) (revoke_rows (may_revoke k) at (w ∷ rows)) ≡ none
      same_row e e' = rw (revoked_row st h t (revoke_row (may_revoke k) at w) (gone k e)) (
          others_silent k rows
            (subst (λ n. find (has_hash n) rows ≡ none) e' (free_hash w rows free)))

no_id : (o : Option WebSession) → id_of o ≡ none → o ≡ none
no_id none p = refl
no_id (some w) p = cc

-- In a database whose sessions were added and revoked from none on, a secret that was logged out
-- does not authenticate afterwards, at any time.
pub logout_ends :
    (secret_hash : ℕ) (now later : Instant) (start s : Store)
    → start.sessions ≡ []
    → Reach start s
    → authenticate secret_hash later (logout secret_hash now s) ≡ none
unfolding authenticate logout find_session_id revoke
logout_ends secret_hash now later start s empty steps =
    let d : IsDistinct s.sessions = Reach-IsDistinct steps (rw empty tt) in
    on_found (id_of (find (has_hash secret_hash) s.sessions)) refl d
  where
    on_found :
        (o : Option ℕ)
        → id_of (find (has_hash secret_hash) s.sessions) ≡ o
        → IsDistinct s.sessions
        → authenticate secret_hash later (logout_found o now s) ≡ none
    on_found none p d = ap as_authenticated (
        authentic_is_hash s secret_hash later s.sessions
          (no_id (find (has_hash secret_hash) s.sessions) p))
    on_found (some k) p d =
        ap as_authenticated
          (revoking_silences (logout_found (some k) now s) secret_hash now later k s.sessions d p)
