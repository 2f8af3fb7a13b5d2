-- ===== src/Telegram/Links/Exclusive.antt =====
-- A Telegram account and a user are linked at most once at a time.
use mint_flow.Prelude.{
  ℕ, ◌≡◌, refl, Bool, true, false, Option, none, some, is_none, List, [], ◌∷◌, ◌&&◌, ◌||◌, find,
  map, none_found, arith, if◌then◌else◌,
}
use mint_flow.Prelude.Datetime.{Instant}
use mint_flow.Prelude.Result.{ok}
use mint_flow.Prelude.Text.{Text}
use mint_flow.Authentication.Store.{Store, TelegramConnection, TelegramLinkChallenge}
use mint_flow.Telegram.Links.Outcome.{Confirmed, refused, linked, confirm-Confirmed, connection_of}
use mint_flow.Telegram.Links.{
  is_claimable, connects_user, connects_telegram, unlink_row, create_challenge, claim, unlink,
  unlink_found, claim_found,
}
use mint_flow.Telegram.Links.Confirming.{same_connection, confirm}

-- two rows that are both active, of the same user or Telegram account
abbrev pub clash : TelegramConnection → TelegramConnection → Bool
clash k row =
    is_none k.unlinked_at
    && (connects_user k.user_id row || connects_telegram k.telegram_user_id row)

abbrev pub IsExclusive : List TelegramConnection → Type 0
IsExclusive [] = Unit
IsExclusive (k ∷ rows) = (find (clash k) rows ≡ none) × IsExclusive rows

new_row_clashes_not :
    (k : TelegramConnection) (rows : List TelegramConnection)
    → find (same_connection k) rows ≡ none
    → find (clash k) rows ≡ none
new_row_clashes_not k [] free = refl
new_row_clashes_not k (r ∷ rows) free =
    let (other, free') = none_found (same_connection k) r rows free in
    rw (at_row other) (new_row_clashes_not k rows free')
  where
    at_row : same_connection k r ≡ false → clash k r ≡ false
    at_row p = ground arith

unlinking_row :
    (user_id : ℕ) (now : Instant) (k r : TelegramConnection)
    → clash k r ≡ false
    → clash (unlink_row user_id now k) (unlink_row user_id now r) ≡ false
unlinking_row user_id now k r p = go (connects_user user_id k) (connects_user user_id r)
  where
    go :
        (b c : Bool)
        → clash
            (if b then record k { unlinked_at = some now } else k)
            (if c then record r { unlinked_at = some now } else r)
          ≡ false
    go true c = refl
    go false true = ground arith
    go false false = p

unlinking_keeps_apart :
    (user_id : ℕ) (now : Instant) (k : TelegramConnection) (rows : List TelegramConnection)
    → find (clash k) rows ≡ none
    → find (clash (unlink_row user_id now k)) (map (unlink_row user_id now) rows) ≡ none
unlinking_keeps_apart user_id now k [] free = refl
unlinking_keeps_apart user_id now k (r ∷ rows) free =
    let (other, free') = none_found (clash k) r rows free in
    rw (unlinking_row user_id now k r other) (unlinking_keeps_apart user_id now k rows free')

unlinking-IsExclusive :
    (user_id : ℕ) (now : Instant) (rows : List TelegramConnection)
    → IsExclusive rows
    → IsExclusive (map (unlink_row user_id now) rows)
unlinking-IsExclusive user_id now [] x = x
unlinking-IsExclusive user_id now (k ∷ rows) (free, x) =
    (unlinking_keeps_apart user_id now k rows free, unlinking-IsExclusive user_id now rows x)

-- The transactions of the ceremony, in any order and number.
pub data Step : Store → Store → Type 0 where
  issued :
      {s s' : Store} (fresh token_hash user_id web_session_id : ℕ) (at : Instant)
      → create_challenge fresh token_hash user_id web_session_id at s ≡ ok s'
      → Step s s'
  claimed_by :
      {s s' : Store} {r : Option TelegramLinkChallenge} (token_hash telegram_user_id : ℕ)
      (name : Option Text) (now : Instant)
      → claim token_hash telegram_user_id name now s ≡ ok (r, s')
      → Step s s'
  confirmed_by :
      {s s' : Store} {r : Option TelegramConnection} (challenge_id web_session_id fresh : ℕ)
      (now : Instant)
      → confirm challenge_id web_session_id fresh now s ≡ ok (r, s')
      → Step s s'
  unlinked :
      {s s' : Store} {b : Bool} (user_id : ℕ) (now : Instant)
      → unlink user_id now s ≡ ok (b, s')
      → Step s s'

pub data Reach : Store → Store → Type 0 where
  here : {s : Store} → Reach s s
  next : {s s' s'' : Store} → Reach s s' → Step s' s'' → Reach s s''

create_challenge-connections :
    (fresh token_hash user_id web_session_id : ℕ) (at : Instant) (s : Store) {s' : Store}
    → create_challenge fresh token_hash user_id web_session_id at s ≡ ok s'
    → s'.connections ≡ s.connections
unfolding create_challenge
create_challenge-connections fresh token_hash user_id web_session_id at s h = ground arith

claim_found-connections :
    (o : Option TelegramLinkChallenge) (token_hash telegram_user_id : ℕ) (name : Option Text)
    (now : Instant) (s : Store) {r : Option TelegramLinkChallenge} {s' : Store}
    → claim_found o token_hash telegram_user_id name now s ≡ ok (r, s')
    → s'.connections ≡ s.connections
claim_found-connections none token_hash telegram_user_id name now s h = ground arith
claim_found-connections (some c) token_hash telegram_user_id name now s h = ground arith

Confirmed-IsExclusive :
    {challenge_id web_session_id fresh : ℕ} {now : Instant} {s : Store}
    {r : Option TelegramConnection} {s' : Store}
    → Confirmed challenge_id web_session_id fresh now s r s'
    → IsExclusive s.connections
    → IsExclusive s'.connections
Confirmed-IsExclusive refused x = x
Confirmed-IsExclusive {fresh = fresh} {now = now} {s = s} (linked c t _ _ _ free) x =
    (new_row_clashes_not (connection_of fresh c t now) s.connections free, x)

unlinked-IsExclusive :
    (o : Option TelegramConnection) (user_id : ℕ) (now : Instant) (s : Store) {b : Bool}
    {s' : Store}
    → unlink_found o user_id now s ≡ ok (b, s')
    → IsExclusive s.connections
    → IsExclusive s'.connections
unlinked-IsExclusive none user_id now s {s' = s'} h x =
    let same : s'.connections ≡ s.connections = ground arith in rw same x
unlinked-IsExclusive (some k) user_id now s {s' = s'} h x =
    let writes : s'.connections ≡ map (unlink_row user_id now) s.connections = ground arith in
    rw writes (unlinking-IsExclusive user_id now s.connections x)

Step-IsExclusive :
    {s s' : Store} → Step s s' → IsExclusive s.connections → IsExclusive s'.connections
unfolding claim unlink
Step-IsExclusive {s = s} (issued fresh token_hash user_id web_session_id at h) x =
    rw (create_challenge-connections fresh token_hash user_id web_session_id at s h) x
Step-IsExclusive {s = s} (claimed_by token_hash telegram_user_id name now h) x =
    rw
      (claim_found-connections
        (find (is_claimable token_hash telegram_user_id now s) s.link_challenges) token_hash
        telegram_user_id name now s h)
      x
Step-IsExclusive {s = s} (confirmed_by challenge_id web_session_id fresh now h) x =
    Confirmed-IsExclusive (confirm-Confirmed challenge_id web_session_id fresh now s h) x
Step-IsExclusive {s = s} (unlinked user_id now h) x =
    unlinked-IsExclusive (find (connects_user user_id) s.connections) user_id now s h x

Reach-IsExclusive :
    {s s' : Store} → Reach s s' → IsExclusive s.connections → IsExclusive s'.connections
Reach-IsExclusive here x = x
Reach-IsExclusive (next before step) x = Step-IsExclusive step (Reach-IsExclusive before x)

-- However challenges are issued, claimed, confirmed and unlinked, from a database without
-- connections on: no user is linked twice at a time, and no Telegram account is.
pub links-IsExclusive :
    {start s : Store} → start.connections ≡ [] → Reach start s → IsExclusive s.connections
links-IsExclusive empty steps = Reach-IsExclusive steps (rw empty tt)
