-- ===== src/Domain/Receipt/Attempts.antt =====
-- The attempts of a receipt, of src/mintflow/domain/capture/receipt.py: a step relation with one
-- constructor for each method that returns a receipt, and what it guarantees of attempts, leases
-- and images.
use mint_flow.Prelude.{ℕ, ◌+◌, ◌<◌, ◌≤◌, ◌≡◌, ◌≢◌, true, none, some, refl, ◌∙◌, is_some, arith}
use mint_flow.Prelude.Datetime.{Datetime, Instant}
use mint_flow.Prelude.Int.{ℤ, pos}
use mint_flow.Prelude.Result.{ok, err}
use mint_flow.Domain.Errors.{not_claimable, stale_attempt}
use mint_flow.Domain.Receipt
use mint_flow.Domain.Receipt.{
  Receipt, ReceiptState, queued, processing, recognized, recognition_failed, is_queued,
  is_processing,
}

-- The relation names the id that a claim draws, and the attempt that a completion or failure names.
pub data Step (r : Receipt) : Receipt → Type 0 where
  claim :
      {s : Receipt} (fresh : ℕ) (now : Datetime) (lease : ℤ)
      → Receipt.claim fresh r now lease ≡ ok s
      → Step r s
  complete :
      {s : Receipt} (attempt : ℕ) (now : Datetime)
      → Receipt.complete r attempt now ≡ ok s
      → Step r s
  fail : {s : Receipt} (attempt : ℕ) (now : Datetime) → Receipt.fail r attempt now ≡ ok s → Step r s
  remove_image : {s : Receipt} (now : Datetime) → Receipt.remove_image r now ≡ ok s → Step r s

-- Sequences of calls in which no claim draws the id `a` (a `uuid4` is not drawn twice).
abbrev NotDrawn : ℕ → {r s : Receipt} → Step r s → Type 0
NotDrawn a (Step.claim fresh now lease e) = fresh ≢ a
NotDrawn a _ = Unit

pub data Without (a : ℕ) (r : Receipt) : Receipt → Type 0 where
  here : Without a r r
  next : {s t : Receipt} → Without a r s → (st : Step s t) → NotDrawn a st → Without a r t

-- A receipt is processed exactly while it has a lease, and then it has a current attempt. In the
-- queue it has no attempt.
pub record IsValid (r : Receipt) : Type 0 where
  pub leased : is_processing r.state ≡ is_some r.lease_expires_at
  pub attempted : is_processing r.state ≡ true → is_some r.attempt_id ≡ true
  pub queue : is_queued r.state ≡ true → r.attempt_id ≡ none

receive-IsValid :
    (fresh owner : ℕ) (now : Datetime) {r : Receipt}
    → Receipt.receive fresh owner now ≡ ok r
    → IsValid r
unfolding Receipt.receive
receive-IsValid fresh owner now h = ground arith

Step-IsValid : {r s : Receipt} → Step r s → IsValid r → IsValid s
unfolding Receipt.claim Receipt.complete Receipt.fail Receipt.remove_image
Step-IsValid (Step.claim fresh now lease e) h = ground arith
Step-IsValid (Step.complete attempt now e) h = ground arith
Step-IsValid (Step.fail attempt now e) h = ground arith
Step-IsValid (Step.remove_image now e) h = ground arith

-- An attempt that is not the receipt's current one, as it stands after other attempts.
abbrev pub IsStale : ℕ → Receipt → Type 0
IsStale a r = r.attempt_id ≢ some a

Step-IsStale : {a : ℕ} {r s : Receipt} (st : Step r s) → NotDrawn a st → IsStale a r → IsStale a s
unfolding Receipt.claim Receipt.complete Receipt.fail Receipt.remove_image
Step-IsStale (Step.claim fresh now lease e) n h = ground arith
Step-IsStale (Step.complete attempt now e) n h = ground arith
Step-IsStale (Step.fail attempt now e) n h = ground arith
Step-IsStale (Step.remove_image now e) n h = ground arith

Without-IsStale : {a : ℕ} {r s : Receipt} → Without a r s → IsStale a r → IsStale a s
Without-IsStale here h = h
Without-IsStale (next w st n) h = Step-IsStale st n (Without-IsStale w h)

claim-IsStale :
    (a fresh : ℕ) (now : Datetime) (lease : ℤ) (r : Receipt) {s : Receipt}
    → fresh ≢ a
    → Receipt.claim fresh r now lease ≡ ok s
    → IsStale a s
unfolding Receipt.claim
claim-IsStale a fresh now lease r ne e = ground arith

stale_refused :
    (a : ℕ) (r : Receipt) (now : Datetime)
    → IsStale a r
    → (Receipt.complete r a now ≡ err stale_attempt) × (Receipt.fail r a now ≡ err stale_attempt)
unfolding Receipt.complete Receipt.fail
stale_refused a r now h = ground arith

-- Once a claim has given a receipt to another attempt, the superseded attempt can neither complete
-- nor fail it, whatever calls come between, as long as no claim draws its id again.
pub superseded_never_finishes :
    (a fresh : ℕ) (now : Datetime) (lease : ℤ) (r : Receipt) {s t : Receipt} (later : Datetime)
    → fresh ≢ a
    → Receipt.claim fresh r now lease ≡ ok s
    → Without a s t
    → (Receipt.complete t a later ≡ err stale_attempt)
      × (Receipt.fail t a later ≡ err stale_attempt)
superseded_never_finishes a fresh now lease r {t = t} later ne e w =
    stale_refused a t later (Without-IsStale w (claim-IsStale a fresh now lease r ne e))

-- While a lease runs, no further claim succeeds.
pub lease_excludes :
    (a b : ℕ) (t lease u : Instant) (o o' : ℤ) (next_lease : ℤ) (r : Receipt) {s : Receipt}
    → Receipt.claim a r (Datetime.aware t o) (pos lease) ≡ ok s
    → u < t + lease
    → Receipt.claim b s (Datetime.aware u o') next_lease ≡ err not_claimable
unfolding Receipt.claim
lease_excludes a b t lease u o o' next_lease r e h = ground arith

-- From the end of a lease on, a claim with a positive lease takes the receipt over.
pub lease_expires :
    (a b : ℕ) (t lease u next_lease : Instant) (o o' : ℤ) (r : Receipt) {s : Receipt}
    → Receipt.claim a r (Datetime.aware t o) (pos lease) ≡ ok s
    → t + lease ≤ u
    → 0 < next_lease
    → (s' : Receipt) × (Receipt.claim b s (Datetime.aware u o') (pos next_lease) ≡ ok s')
      × (s'.attempt_id ≡ some b)
unfolding Receipt.claim
lease_expires a b t lease u next_lease o o' r {s = s} e h p = (
  record s {
    state = processing;
    attempt_id = some b;
    lease_expires_at = some (u + next_lease);
    modified_at = u;
  },
  ground arith,
  ground arith,
)

pub data Reach (r : Receipt) : Receipt → Type 0 where
  start : Reach r r
  then_step : {s t : Receipt} → Reach r s → Step s t → Reach r t

-- The image stays removed, and a receipt that left the queue does not come back to it.
Step-removed :
    {r s : Receipt}
    → Step r s
    → is_some r.image_removed_at ≡ true
    → s.image_removed_at ≡ r.image_removed_at
unfolding Receipt.claim Receipt.complete Receipt.fail Receipt.remove_image
Step-removed (Step.claim fresh now lease e) h = ground arith
Step-removed (Step.complete attempt now e) h = ground arith
Step-removed (Step.fail attempt now e) h = ground arith
Step-removed (Step.remove_image now e) h = ground arith

Reach-removed :
    {r s : Receipt}
    → Reach r s
    → is_some r.image_removed_at ≡ true
    → s.image_removed_at ≡ r.image_removed_at
Reach-removed start h = refl
Reach-removed (then_step w st) h =
    let same = Reach-removed w h in Step-removed st (rw same h) ∙ same

removed_refuses :
    (r : Receipt) (fresh : ℕ) (now : Datetime) (lease : ℤ)
    → is_some r.image_removed_at ≡ true
    → Receipt.claim fresh r now lease ≡ err not_claimable
unfolding Receipt.claim
removed_refuses r fresh now lease h = ground arith

removes :
    (r : Receipt) (now : Datetime) {s : Receipt}
    → Receipt.remove_image r now ≡ ok s
    → is_some s.image_removed_at ≡ true
unfolding Receipt.remove_image
removes r now e = ground arith

-- A receipt whose image was removed is never claimed again, whatever calls come between.
pub removed_never_claimed :
    (r : Receipt) (removed : Datetime) {s t : Receipt} (fresh : ℕ) (now : Datetime) (lease : ℤ)
    → Receipt.remove_image r removed ≡ ok s
    → Reach s t
    → Receipt.claim fresh t now lease ≡ err not_claimable
removed_never_claimed r removed {t = t} fresh now lease e w =
    let gone = removes r removed e in
    removed_refuses t fresh now lease (rw (Reach-removed w gone) gone)

Reach-IsValid : {r s : Receipt} → Reach r s → IsValid r → IsValid s
Reach-IsValid start h = h
Reach-IsValid (then_step w st) h = Step-IsValid st (Reach-IsValid w h)

-- From the moment it is received, whatever calls succeed, a receipt is in processing exactly while
-- it has a lease, has a current attempt then, and has none while it is queued.
pub received-IsValid :
    (fresh owner : ℕ) (now : Datetime) {r s : Receipt}
    → Receipt.receive fresh owner now ≡ ok r
    → Reach r s
    → IsValid s
received-IsValid fresh owner now e w = Reach-IsValid w (receive-IsValid fresh owner now e)
