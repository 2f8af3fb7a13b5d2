-- ===== src/Authentication/Login/Once.antt =====
-- A sign-in link works once.
use mint_flow.Prelude.{
  ℕ, ◌≤◌, ◌≡◌, refl, ◌∙◌, Bool, true, false, Option, none, some, List, [], ◌∷◌, find, map,
  none_found, arith, if◌then◌else◌,
}
use mint_flow.Prelude.Datetime.{Instant}
use mint_flow.Prelude.Result.{ok}
use mint_flow.Authentication.Login.{
  MagicLinkConsumptionResult, invalid_result, Drawn, is_consumable, consume_row, failure, has_email,
  with_challenge, marked, consume,
}
use mint_flow.Authentication.Store.{Store, LoginChallenge, add_audit}
use mint_flow.Authentication.Login.Ending.{Ended, refused, signed_in, with_user-Ended}

-- Whatever a use of a link does, its token is spent.
Ended-login_challenges :
    {c : LoginChallenge} {at : Instant} {drawn : Drawn} {s : Store} {r : MagicLinkConsumptionResult}
    {s' : Store}
    → Ended c at drawn s r s'
    → s'.login_challenges ≡ s.login_challenges
Ended-login_challenges refused = refl
Ended-login_challenges (signed_in u s1 opened _ _ i _ _ same) = opened.login_challenges ∙ same

consume-login_challenges :
    (token_hash : ℕ) (at : Instant) (drawn : Drawn) (s : Store) {r : MagicLinkConsumptionResult}
    {s' : Store}
    → consume token_hash at drawn s ≡ ok (r, s')
    → s'.login_challenges ≡ map (consume_row token_hash at) s.login_challenges
unfolding consume
consume-login_challenges token_hash at drawn s {r = r} {s' = s'} h =
    go (find (is_consumable token_hash at) s.login_challenges) h
  where
    go :
        (o : Option LoginChallenge)
        → with_challenge o at drawn (marked token_hash at s) ≡ ok (r, s')
        → s'.login_challenges ≡ map (consume_row token_hash at) s.login_challenges
    go none k = ground arith
    go (some c) k = Ended-login_challenges (
        with_user-Ended (find (has_email c.canonical_email) s.identities) c at drawn
          (marked token_hash at s) refl k)

spent :
    (token_hash : ℕ) (at later : Instant) (rows : List LoginChallenge)
    → at ≤ later
    → find (is_consumable token_hash later) (map (consume_row token_hash at) rows) ≡ none
spent token_hash at later [] le = refl
spent token_hash at later (c ∷ rows) le =
    rw (at_row (is_consumable token_hash at c) refl) (spent token_hash at later rows le)
  where
    at_row :
        (b : Bool)
        → is_consumable token_hash at c ≡ b
        → is_consumable token_hash later (if b then record c { consumed_at = some at } else c)
          ≡ false
    at_row true p = ground arith
    at_row false p = ground arith

unmarked :
    (token_hash : ℕ) (at : Instant) (rows : List LoginChallenge)
    → find (is_consumable token_hash at) rows ≡ none
    → map (consume_row token_hash at) rows ≡ rows
unmarked token_hash at [] free = refl
unmarked token_hash at (c ∷ rows) free =
    let (other, free') = none_found (is_consumable token_hash at) c rows free in
    rw (other, unmarked token_hash at rows free') refl

-- A sign-in link works once: after it was used with any outcome, to use it again at a later time
-- gives the result of an unknown link, and writes nothing but the record of the failure.
pub consume_once :
    (token_hash : ℕ) (at later : Instant) (drawn again : Drawn) (s : Store)
    {r : MagicLinkConsumptionResult} {s' : Store}
    → at ≤ later
    → consume token_hash at drawn s ≡ ok (r, s')
    → consume token_hash later again s' ≡ ok (invalid_result, add_audit (failure later none) s')
unfolding consume
consume_once token_hash at later drawn again s {s' = s'} le h =
    let free : find (is_consumable token_hash later) s'.login_challenges ≡ none =
      rw (consume-login_challenges token_hash at drawn s h)
        (spent token_hash at later s.login_challenges le) in
    rw (free, unmarked token_hash later s'.login_challenges free) refl
