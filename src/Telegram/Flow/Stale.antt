-- ===== src/Telegram/Flow/Stale.antt =====
-- A button of an old card: the promise of src/mintflow/telegram/capture_flow.py that it never acts on
-- a different draft.
use mint_flow.Prelude.{
  ℕ, Bool, true, false, Option, none, some, List, [], ◌∷◌, ◌≡◌, refl, ap, ◌∙◌, ◌==◌, map, find,
  arith, inl, inr, find_satisfies, Bool-cases, Option-cases, if◌then◌else◌,
}
use mint_flow.Prelude.Datetime.{Datetime, Instant, astimezone_utc}
use mint_flow.Prelude.Result.{Result, ok, err}
use mint_flow.Prelude.Text.{Unicode}
use mint_flow.Authentication.Store.{TelegramConversation, nothing}
use mint_flow.Capture.Database.{Db, get_draft, is_draft}
use mint_flow.Domain.Draft.{CaptureDraft, is_open, is_confirmed}
use mint_flow.Domain.User.{User}
use mint_flow.Domain.User.Preferences.{Zones}
use mint_flow.Telegram.Conversation
use mint_flow.Telegram.Conversation.{ConversationError, is_of, checked, idle, finished}
use mint_flow.Telegram.Conversation.Rows.{IsValid}
use mint_flow.Telegram.Flow.{
  Bot, Drawn, Flow, FlowError, ◌>>=◌, lock_user, find_draft, save_conversation,
}
use mint_flow.Telegram.Flow.Cards
use mint_flow.Telegram.Flow.Cards.{
  Message, Outgoing, DraftAction, callback_answer, already_saved, draft_not_active,
}
use mint_flow.Telegram.Flow.Steps.{active_draft, active_of, active_or_finish}
use mint_flow.Telegram.Flow.Updates.{button_with, on_callback}

-- a conversation that waits for nothing
abbrev waits_for_nothing : ℕ → Instant → TelegramConversation
waits_for_nothing user_id at = record {
  user_id = user_id;
  active_draft_id = none;
  awaiting = nothing;
  currency_is_default = false;
  updated_at = at;
  pending_receipt_file_id = none;
}

-- whether there is such a draft and it is open
abbrev is_current : Option CaptureDraft → Bool
is_current none = false
is_current (some draft) = is_open draft.state

-- whether the conversation stays as it is: it points at no draft, or at an open one of the user
abbrev stays : Option ℕ → ℕ → Db → Bool
unfolding get_draft
stays none user_id db = true
stays (some k) user_id db = is_current (get_draft k user_id db)

abbrev settled_rows :
    Option TelegramConversation
    → ℕ
    → Instant
    → Db
    → List TelegramConversation
    → List TelegramConversation
unfolding stays
settled_rows none user_id at db rows = waits_for_nothing user_id at ∷ rows
settled_rows (some c) user_id at db rows =
    if stays c.active_draft_id user_id db
    then rows
    else map
        (λ (row : TelegramConversation).
          if row.user_id == user_id then waits_for_nothing user_id at else row)
        rows

-- The state with the user's conversation made if there is none, and idle if it points at a draft
-- that is not open; nothing else differs.
unfoldable pub settled : ℕ → Instant → Bot → Bot
unfolding settled_rows
settled user_id at b = record b {
  conversations =
      settled_rows (find (is_of user_id) b.conversations) user_id at b.db b.conversations;
}

-- what the press of an old button is answered
abbrev pub told : Option CaptureDraft → Message
told none = draft_not_active
told (some d) = if is_confirmed d.state then already_saved else draft_not_active

module _ (draft_id user_id : ℕ) (b : Bot) where
  -- the user's conversation does not point at the draft
  unfoldable pub PointsElsewhere : Type 0
  PointsElsewhere =
      (row : TelegramConversation) (k : ℕ)
      → find (is_of user_id) b.conversations ≡ some row
      → row.active_draft_id ≡ some k
      → (k == draft_id) ≡ false

-- the user's conversation, if there is one, is one that the table and the class let pass
unfoldable pub IsUsable : ℕ → Bot → Type 0
unfolding IsValid
IsUsable user_id b =
    (row : TelegramConversation) → find (is_of user_id) b.conversations ≡ some row → IsValid row

bind_ok :
    {A B : Type 0} (m : Flow A) (rest : A → Flow B) (b : Bot) {c : A} {b1 : Bot}
    {r : Result FlowError (B × Bot)}
    → m b ≡ ok (c, b1)
    → rest c b1 ≡ r
    → (m >>= rest) b ≡ r
unfolding ◌>>=◌
bind_ok {A = A} m rest b h k =
    ap (λ (x : Result FlowError (A × Bot)). elim x [ err e ↦ err e | ok (a, b') ↦ rest a b' ]) h ∙ k

lock_new :
    (user_id : ℕ) (now : Datetime) (b : Bot)
    → find (is_of user_id) b.conversations ≡ none
    → lock_user user_id now b
      ≡ ok (
        waits_for_nothing user_id (astimezone_utc now),
        record b {
          conversations = waits_for_nothing user_id (astimezone_utc now) ∷ b.conversations;
        },
      )
unfolding lock_user Conversation.lock checked
lock_new user_id now b h = rw (h, self) refl
  where
    self : (user_id == user_id) ≡ true
    self = ground arith

lock_known :
    (user_id : ℕ) (now : Datetime) (b : Bot) {c : TelegramConversation}
    → find (is_of user_id) b.conversations ≡ some c
    → IsValid c
    → lock_user user_id now b ≡ ok (c, b)
unfolding lock_user Conversation.lock checked IsValid
lock_known user_id now b h valid = rw (h, h, valid) refl

-- the user's conversation, made idle
abbrev made_idle : ℕ → Instant → Bot → Bot
made_idle user_id at b = record b {
  conversations =
      map
        (λ (row : TelegramConversation).
          if row.user_id == user_id then waits_for_nothing user_id at else row)
        b.conversations;
}

finish_found :
    (user_id : ℕ) (now : Datetime) (b : Bot) (c : TelegramConversation) (o : Option CaptureDraft)
    → find (is_of user_id) b.conversations ≡ some c
    → c.user_id ≡ user_id
    → is_current o ≡ false
    → active_or_finish o now c b ≡ ok (none, made_idle user_id (astimezone_utc now) b)
unfolding ◌>>=◌ finished idle checked save_conversation Conversation.save
finish_found user_id now b c none h same e = rw (same, h) refl
finish_found user_id now b c (some d) h same e = rw (e, same, h) refl

finish_stale :
    (user_id : ℕ) (now : Datetime) (b : Bot) (c : TelegramConversation) (o : Option ℕ)
    → find (is_of user_id) b.conversations ≡ some c
    → c.user_id ≡ user_id
    → stays o user_id b.db ≡ false
    → active_of o user_id now c b ≡ ok (none, made_idle user_id (astimezone_utc now) b)
unfolding stays find_draft get_draft
finish_stale user_id now b c none h same e = cc
finish_stale user_id now b c (some k) h same e =
    bind_ok (find_draft k user_id) (λ o. active_or_finish o now c) b refl
      (finish_found user_id now b c (get_draft k user_id b.db) h same e)

module _ (draft_id : ℕ) where
  IsOther : Option CaptureDraft → Type 0
  IsOther o = (d : CaptureDraft) → o ≡ some d → (d.id == draft_id) ≡ false

  none-IsOther : IsOther none
  unfolding IsOther
  none-IsOther d p = cc

  current_stays :
      (now : Datetime) (b : Bot) (c : TelegramConversation) (o : Option CaptureDraft)
      → is_current o ≡ true
      → active_or_finish o now c b ≡ ok (o, b)
  current_stays now b c none e = cc
  current_stays now b c (some d) e = rw e refl

  keep_current :
      (user_id : ℕ) (now : Datetime) (b : Bot) (c : TelegramConversation) (o : Option ℕ)
      → ((k : ℕ) → o ≡ some k → (k == draft_id) ≡ false)
      → stays o user_id b.db ≡ true
      → (found : Option CaptureDraft) × (active_of o user_id now c b ≡ ok (found, b))
        × IsOther found
  unfolding stays find_draft get_draft IsOther
  keep_current user_id now b c none h e = (none, refl, λ d p. cc)
  keep_current user_id now b c (some k) h e = (
    get_draft k user_id b.db,
    bind_ok (find_draft k user_id) (λ o. active_or_finish o now c) b refl
        (current_stays now b c (get_draft k user_id b.db) e),
    λ d p. other d (find_satisfies (is_draft k user_id) b.db.drafts p),
  )
    where
      other : (d : CaptureDraft) → is_draft k user_id d ≡ true → (d.id == draft_id) ≡ false
      other d p = let q = h k refl in ground arith

module _ ⦃u : Unicode⦄ ⦃z : Zones⦄ (by : User) (drawn : Drawn) (now : Datetime) (draft_id : ℕ)
    (action : DraftAction) where
  abbrev tells : Option CaptureDraft → List Outgoing
  tells o = callback_answer (some (told o)) ∷ []

  press_other :
      (c : TelegramConversation) (b : Bot) (found : Option CaptureDraft)
      → IsOther draft_id found
      → button_with found draft_id action by drawn now c b
        ≡ ok (tells (get_draft draft_id by.id b.db), b)
  unfolding button_with find_draft get_draft IsOther ◌>>=◌
  press_other c b none h = refl
  press_other c b (some d) h = rw (h d refl) refl

  press_then :
      (b b1 b2 : Bot) (c : TelegramConversation) (found : Option CaptureDraft)
      → lock_user by.id now b ≡ ok (c, b1)
      → active_of c.active_draft_id by.id now c b1 ≡ ok (found, b2)
      → IsOther draft_id found
      → on_callback by drawn now (Cards.draft_action draft_id action) b
        ≡ ok (some (tells (get_draft draft_id by.id b2.db)), b2)
  unfolding on_callback active_draft
  press_then b b1 b2 c found locks finds other = bind_ok (lock_user by.id now) _ b locks (
      bind_ok (active_of c.active_draft_id by.id now c) _ b1 finds (
        bind_ok (button_with found draft_id action by drawn now c) _ b2
          (press_other c b2 found other) refl))

  press_known :
      (b : Bot) {c : TelegramConversation}
      → PointsElsewhere draft_id by.id b
      → find (is_of by.id) b.conversations ≡ some c
      → IsValid c
      → on_callback by drawn now (Cards.draft_action draft_id action) b
        ≡ ok (some (tells (get_draft draft_id by.id b.db)), settled by.id (astimezone_utc now) b)
  unfolding PointsElsewhere settled stays
  press_known b {c = c} elsewhere h valid = elim (Bool-cases (stays c.active_draft_id by.id b.db)) [
    | inl e ↦
        let (found, finds, other) =
          keep_current draft_id by.id now b c c.active_draft_id (λ k p. elsewhere c k h p) e in
        rw (h, e) (press_then b b b c found (lock_known by.id now b h valid) finds other)
    | inr e ↦
        rw (h, e)
          (press_then b b (made_idle by.id (astimezone_utc now) b) c none
            (lock_known by.id now b h valid) (finish_stale by.id now b c c.active_draft_id h same e)
            (none-IsOther draft_id))
  ]
    where
      same : c.user_id ≡ by.id
      same = let q = find_satisfies (is_of by.id) b.conversations h in ground arith

  press_unknown :
      (b : Bot)
      → find (is_of by.id) b.conversations ≡ none
      → on_callback by drawn now (Cards.draft_action draft_id action) b
        ≡ ok (some (tells (get_draft draft_id by.id b.db)), settled by.id (astimezone_utc now) b)
  unfolding settled
  press_unknown b h = rw h (
      press_then b _ _ (waits_for_nothing by.id (astimezone_utc now)) none (lock_new by.id now b h)
        refl (none-IsOther draft_id))

  -- A button of a draft that the user's conversation does not point at, whatever it asks for, returns
  -- and is answered only with whether that draft of the user was saved or is not active. It changes
  -- no draft, expense, change record or receipt, no conversation of another user and no conversation
  -- that points at an open draft of the user or at none: a user without a conversation gets one that
  -- waits for nothing, and one that points at a draft that is not open is set to wait for nothing.
  -- This is where the user's stored conversation is one that the class and the table let pass.
  pub on_callback_stale :
      (b : Bot)
      → PointsElsewhere draft_id by.id b
      → IsUsable by.id b
      → on_callback by drawn now (Cards.draft_action draft_id action) b
        ≡ ok (
          some (callback_answer (some (told (get_draft draft_id by.id b.db))) ∷ []),
          settled by.id (astimezone_utc now) b,
        )
  unfolding IsUsable
  on_callback_stale b elsewhere usable = elim (Option-cases (find (is_of by.id) b.conversations)) [
    | inl h ↦ press_unknown b h
    | inr (c, h) ↦ press_known b elsewhere h (usable c h)
  ]
