-- ===== src/Domain/Draft/Frame.antt =====
-- How a successful call of a method of src/mintflow/domain/capture/draft.py moves a draft: who may
-- make it, which states it goes between, and what it leaves alone.
use mint_flow.Prelude.{ℕ, ◌≤◌, ◌≡◌, Bool, true, false, ◌∙◌, refl, arith}
use mint_flow.Prelude.Text.{Unicode}
use mint_flow.Domain.Draft.{
  CaptureDraft, CaptureDraftState, collecting, awaiting_recognition, ready_for_review, confirmed,
  cancelled, expired, is_open,
}
use mint_flow.Domain.Draft.Edit
use mint_flow.Domain.Draft.Lifecycle
use mint_flow.Domain.Draft.Recognition.{apply_recognition-eq-ok}
use mint_flow.Domain.Draft.Steps.{Actor, caller, system, Step, Reach, here, next}

-- The state machine of a draft: which state may follow which in one call. Only a draft in review is
-- confirmed, none comes back to wait for recognition, and the last three states are final.
abbrev pub may_follow : CaptureDraftState → CaptureDraftState → Bool
may_follow awaiting_recognition confirmed = false
may_follow awaiting_recognition _ = true
may_follow collecting awaiting_recognition = false
may_follow collecting confirmed = false
may_follow collecting _ = true
may_follow ready_for_review awaiting_recognition = false
may_follow ready_for_review collecting = false
may_follow ready_for_review _ = true
may_follow confirmed confirmed = true
may_follow cancelled cancelled = true
may_follow expired expired = true
may_follow _ _ = false

-- what no call changes, and the revision, which no call lowers
pub record SameDraft (d e : CaptureDraft) : Type 0 where
  pub id : e.id ≡ d.id
  pub owner : e.owner_id ≡ d.owner_id
  pub source : e.source ≡ d.source
  pub receipt : e.receipt_id ≡ d.receipt_id
  pub created : e.created_at ≡ d.created_at
  pub revision : d.revision ≤ e.revision

abbrev Permits : Actor → CaptureDraft → Type 0
Permits (caller c) d = c ≡ d.owner_id
Permits system d = Unit

pub record Moves (a : Actor) (d e : CaptureDraft) : Type 0 where
  pub by_owner : Permits a d
  pub same : SameDraft d e
  pub follows : may_follow d.state e.state ≡ true
  pub finished : is_open d.state ≡ false → e ≡ d

module _ ⦃u : Unicode⦄ where
  Step-Moves : {a : Actor} {d e : CaptureDraft} → Step a d e → Moves a d e
  unfolding Edit.set_amount Edit.set_transaction_date Edit.set_merchant Edit.set_category_key
      Edit.set_note Lifecycle.continue_manually Lifecycle.mark_ready_for_review Lifecycle.confirm
      Lifecycle.cancel Lifecycle.expire
  Step-Moves (Step.set_amount amount now source e) = ground arith
  Step-Moves (Step.set_transaction_date date now source e) = ground arith
  Step-Moves (Step.set_merchant merchant now source e) = ground arith
  Step-Moves (Step.set_category_key key now source e) = ground arith
  Step-Moves (Step.set_note text now e) = ground arith
  Step-Moves (Step.continue_manually now e) = ground arith
  Step-Moves (Step.mark_ready_for_review now e) = ground arith
  Step-Moves (Step.confirm expense_id now e) = ground arith
  Step-Moves (Step.cancel now e) = ground arith
  Step-Moves (Step.expire now e) = ground arith
  Step-Moves (Step.apply_recognition {d = d} result fallback now e) =
      let (_, _, opened, eq) = apply_recognition-eq-ok d result fallback now e in
      rw eq (ground arith)

  -- A call that succeeds is made by the draft's owner or by the system.
  pub Step-owner : {c : ℕ} {d e : CaptureDraft} → Step (caller c) d e → c ≡ d.owner_id
  Step-owner st = (Step-Moves st).by_owner

  -- A call goes between states as the state machine `may_follow` says.
  pub Step-may_follow :
      {a : Actor} {d e : CaptureDraft} → Step a d e → may_follow d.state e.state ≡ true
  Step-may_follow st = (Step-Moves st).follows

  SameDraft-trans : {d e f : CaptureDraft} → SameDraft d e → SameDraft e f → SameDraft d f
  SameDraft-trans h k = ground arith

  -- Whatever calls are made, a draft keeps its id, its owner, its source, its receipt and the time
  -- it was created, and its revision does not fall.
  pub Reach-SameDraft : {d e : CaptureDraft} → Reach d e → SameDraft d e
  Reach-SameDraft here = ground arith
  Reach-SameDraft (next r st) = SameDraft-trans (Reach-SameDraft r) (Step-Moves st).same

  -- A confirmed, cancelled or expired draft is final: whatever calls succeed on it leave every
  -- field as it is.
  pub Reach-finished : {d e : CaptureDraft} → is_open d.state ≡ false → Reach d e → e ≡ d
  Reach-finished h here = refl
  Reach-finished h (next r st) =
      let same = Reach-finished h r in (Step-Moves st).finished (rw same h) ∙ same
