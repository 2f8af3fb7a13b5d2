-- ===== src/Telegram/Conversation/Rows.antt =====
-- What saving a conversation does to the rows, and what locking reads of them.
use mint_flow.Prelude.{
  Bool, true, false, some, List, [], ◌∷◌, map, find, ◌≡◌, refl, ◌==◌, if◌then◌else◌, arith,
  Option-cases, inl, inr,
}
use mint_flow.Prelude.Datetime.{Instant}
use mint_flow.Prelude.Result.{ok}
use mint_flow.Authentication.Store.{TelegramConversation}
use mint_flow.Telegram.Conversation.{checked, is_of, lock, save, replace_row}

-- A conversation that the check constraints of the table and `__post_init__` let pass.
unfoldable pub IsValid : TelegramConversation → Type 0
unfolding checked
IsValid c = checked c ≡ ok c

find_replaced :
    (c row : TelegramConversation) (rows : List TelegramConversation)
    → find (is_of c.user_id) rows ≡ some row
    → find (is_of c.user_id) (map (replace_row c) rows) ≡ some c
find_replaced c row [] h = cc
find_replaced c row (d ∷ rows) h = go (d.user_id == c.user_id) refl h (find_replaced c row rows)
  where
    self : (c.user_id == c.user_id) ≡ true
    self = ground arith

    go :
        (b : Bool)
        → (d.user_id == c.user_id) ≡ b
        → (if b then some d else find (is_of c.user_id) rows) ≡ some row
        → (find (is_of c.user_id) rows ≡ some row
            → find (is_of c.user_id) (map (replace_row c) rows) ≡ some c)
        → find (is_of c.user_id) (map (replace_row c) (d ∷ rows)) ≡ some c
    go true e k rest = rw (e, self) refl
    go false e k rest = rw (e, e) (rest k)

-- Whatever the rows were, the saved conversation is the one of its user.
find-save :
    (c : TelegramConversation) (rows : List TelegramConversation)
    → find (is_of c.user_id) (save c rows) ≡ some c
unfolding save
find-save c rows = elim (Option-cases (find (is_of c.user_id) rows)) [
  | inl e ↦ rw e (rw self refl)
  | inr (row, e) ↦ rw e (find_replaced c row rows e)
]
  where
    self : (c.user_id == c.user_id) ≡ true
    self = ground arith

-- What was saved is what the next update of the user locks: locking a saved conversation returns it
-- as it was saved and leaves the rows as they are, at any later time.
pub lock-save :
    (c : TelegramConversation) (rows : List TelegramConversation) (now : Instant)
    → IsValid c
    → lock c.user_id now (save c rows) ≡ ok (c, save c rows)
unfolding lock checked IsValid
lock-save c rows now valid = rw (find-save c rows, find-save c rows, valid) refl
