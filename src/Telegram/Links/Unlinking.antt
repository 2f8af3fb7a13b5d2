-- ===== src/Telegram/Links/Unlinking.antt =====
-- What unlinking does.
use mint_flow.Prelude.{
  ℕ, ◌≡◌, ◌≢◌, refl, Bool, true, false, Option, none, some, is_some, List, [], ◌∷◌, ◌==◌, find, map,
  filter, not, arith, if◌then◌else◌,
}
use mint_flow.Prelude.Datetime.{Instant}
use mint_flow.Prelude.Result.{ok}
use mint_flow.Authentication.Store.{Store, TelegramConnection, TelegramConversation}
use mint_flow.Telegram.Links.{
  connects_user, unlink_row, unlink, unlink_found, active_connection_for_user, not_of,
}

unlinked_rows :
    (user_id : ℕ) (now : Instant) (rows : List TelegramConnection)
    → find (connects_user user_id) (map (unlink_row user_id now) rows) ≡ none
unlinked_rows user_id now [] = refl
unlinked_rows user_id now (k ∷ rows) =
    rw (at_row (connects_user user_id k) refl) (unlinked_rows user_id now rows)
  where
    at_row :
        (b : Bool)
        → connects_user user_id k ≡ b
        → connects_user user_id (if b then record k { unlinked_at = some now } else k) ≡ false
    at_row true e = ground arith
    at_row false e = e

others_stay :
    (user_id other : ℕ) (now : Instant) (rows : List TelegramConnection)
    → other ≢ user_id
    → find (connects_user other) (map (unlink_row user_id now) rows)
      ≡ find (connects_user other) rows
others_stay user_id other now [] ne = refl
others_stay user_id other now (k ∷ rows) ne =
    go (connects_user user_id k) refl (others_stay user_id other now rows ne)
  where
    not_other : connects_user user_id k ≡ true → connects_user other k ≡ false
    not_other p = ground arith

    go :
        (b : Bool)
        → connects_user user_id k ≡ b
        → find (connects_user other) (map (unlink_row user_id now) rows)
          ≡ find (connects_user other) rows
        → find (connects_user other) (
            (if b then record k { unlinked_at = some now } else k)
            ∷ map (unlink_row user_id now) rows)
          ≡ find (connects_user other) (k ∷ rows)
    go true e rest = rw (not_other e) (gone rest)
      where
        gone :
            find (connects_user other) (map (unlink_row user_id now) rows)
              ≡ find (connects_user other) rows
            → find
                (connects_user other)
                (record k { unlinked_at = some now } ∷ map (unlink_row user_id now) rows)
              ≡ find (connects_user other) rows
        gone q = ground arith
    go false e rest = rw rest refl

silent :
    (user_id : ℕ) (rows : List TelegramConversation)
    → find (λ (c : TelegramConversation). c.user_id == user_id) (filter (not_of user_id) rows)
      ≡ none
silent user_id [] = refl
silent user_id (c ∷ rows) = go (c.user_id == user_id) refl (silent user_id rows)
  where
    go :
        (b : Bool)
        → (c.user_id == user_id) ≡ b
        → find (λ (d : TelegramConversation). d.user_id == user_id) (filter (not_of user_id) rows)
          ≡ none
        → find
            (λ (d : TelegramConversation). d.user_id == user_id)
            (if not b then c ∷ filter (not_of user_id) rows else filter (not_of user_id) rows)
          ≡ none
    go true e rest = rest
    go false e rest = rw e rest

-- What unlinking does, whether there was a connection or not.
pub record Unlinked (user_id : ℕ) (s s' : Store) (b : Bool) : Type 0 where
  pub gone : active_connection_for_user user_id s' ≡ none
  pub told : is_some (active_connection_for_user user_id s) ≡ b
  pub quiet :
      b ≡ true → find (λ (c : TelegramConversation). c.user_id == user_id) s'.conversations ≡ none

unlink_found-Unlinked :
    (o : Option TelegramConnection) (user_id : ℕ) (now : Instant) (s : Store) {b : Bool}
    {s' : Store}
    → find (connects_user user_id) s.connections ≡ o
    → unlink_found o user_id now s ≡ ok (b, s')
    → Unlinked user_id s s' b
unfolding active_connection_for_user
unlink_found-Unlinked none user_id now s {b = b} {s' = s'} found h =
    let same : s'.connections ≡ s.connections = ground arith in
    record { gone = rw same found; told = ground arith; quiet = λ e. ground arith }
unlink_found-Unlinked (some k) user_id now s {b = b} {s' = s'} found h =
    let writes : s'.connections ≡ map (unlink_row user_id now) s.connections = ground arith in
    let talks : s'.conversations ≡ filter (not_of user_id) s.conversations = ground arith in
    record {
      gone = rw writes (unlinked_rows user_id now s.connections);
      told = ground arith;
      quiet = λ e. rw talks (silent user_id s.conversations);
    }

-- Unlinking tells whether there was an active connection of the user; afterwards there is none, and
-- if there was one the bot keeps no conversation of the user either.
pub unlink-Unlinked :
    (user_id : ℕ) (now : Instant) (s : Store) {b : Bool} {s' : Store}
    → unlink user_id now s ≡ ok (b, s')
    → Unlinked user_id s s' b
unfolding unlink
unlink-Unlinked user_id now s h =
    unlink_found-Unlinked (find (connects_user user_id) s.connections) user_id now s refl h

unlink_found-connections :
    (o : Option TelegramConnection) (user_id other : ℕ) (now : Instant) (s : Store) {b : Bool}
    {s' : Store}
    → other ≢ user_id
    → unlink_found o user_id now s ≡ ok (b, s')
    → find (connects_user other) s'.connections ≡ find (connects_user other) s.connections
unlink_found-connections none user_id other now s {s' = s'} ne h =
    let same : s'.connections ≡ s.connections = ground arith in rw same refl
unlink_found-connections (some k) user_id other now s {s' = s'} ne h =
    let writes : s'.connections ≡ map (unlink_row user_id now) s.connections = ground arith in
    rw writes (others_stay user_id other now s.connections ne)

-- Unlinking one user leaves the active connection of every other one as it is.
pub unlink-others :
    (user_id other : ℕ) (now : Instant) (s : Store) {b : Bool} {s' : Store}
    → other ≢ user_id
    → unlink user_id now s ≡ ok (b, s')
    → active_connection_for_user other s' ≡ active_connection_for_user other s
unfolding unlink active_connection_for_user
unlink-others user_id other now s ne h =
    unlink_found-connections (find (connects_user user_id) s.connections) user_id other now s ne h
