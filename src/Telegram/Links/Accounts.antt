-- ===== src/Telegram/Links/Accounts.antt =====
-- A user acts from one Telegram account at a time.
use mathlib.Core.Option.{some-injective}
use mathlib.Core.Path.{subst}
use mint_flow.Prelude.{
  ℕ, ◌≡◌, refl, sym, ap, ◌∙◌, Bool, true, false, Option, none, some, is_none, List, [], ◌∷◌, ◌==◌,
  find, none_found, find_satisfies, arith, if◌then◌else◌, Bool-cases, inl, inr,
}
use mint_flow.Authentication.Store.{Store, TelegramConnection}
use mint_flow.Domain.User.{User}
use mint_flow.Telegram.Links.{connects_telegram, active_connection_for_telegram_user}
use mint_flow.Telegram.Links.Views.{active_only, resolve, user_of_connection}
use mint_flow.Telegram.Links.Exclusive.{clash, IsExclusive, Reach, links-IsExclusive}

-- a row that clashes with none is not linked with one of its user
apart :
    (r : TelegramConnection) (b : ℕ) (rows : List TelegramConnection) {k : TelegramConnection}
    → is_none r.unlinked_at ≡ true
    → find (clash r) rows ≡ none
    → find (connects_telegram b) rows ≡ some k
    → (k.user_id == r.user_id) ≡ false
apart r b [] on free found = cc
apart r b (v ∷ rows) {k = k} on free found =
    let (other, free') = none_found (clash r) v rows free in
    elim (Bool-cases (connects_telegram b v)) [
      | inl e ↦
          subst (λ (x : TelegramConnection). (x.user_id == r.user_id) ≡ false)
            (some-injective v k (rw e at found)) (at_row e other)
      | inr e ↦ apart r b rows on free' (rw e at found)
    ]
  where
    at_row : connects_telegram b v ≡ true → clash r v ≡ false → (v.user_id == r.user_id) ≡ false
    at_row p q = ground arith

active_of :
    (b : ℕ) (r : TelegramConnection)
    → connects_telegram b r ≡ true
    → (r.telegram_user_id ≡ b) × (is_none r.unlinked_at ≡ true)
active_of b r h = ground arith

one_account :
    (a b : ℕ) (rows : List TelegramConnection) {k l : TelegramConnection}
    → IsExclusive rows
    → find (connects_telegram a) rows ≡ some k
    → find (connects_telegram b) rows ≡ some l
    → k.user_id ≡ l.user_id
    → a ≡ b
one_account a b [] x found found' same = cc
one_account a b (r ∷ rows) {k = k} {l = l} (free, x) found found' same =
    go (connects_telegram a r) (connects_telegram b r) refl refl found found'
      (λ f f'. one_account a b rows x f f' same)
  where
    never : (m n : ℕ) → (m == n) ≡ false → n ≡ m → a ≡ b
    never m n p e = ground arith

    user : {j : TelegramConnection} → some r ≡ some j → r.user_id ≡ j.user_id
    user {j = j} e = ap (λ (y : TelegramConnection). y.user_id) (some-injective r j e)

    go :
        (p q : Bool)
        → connects_telegram a r ≡ p
        → connects_telegram b r ≡ q
        → (if p then some r else find (connects_telegram a) rows) ≡ some k
        → (if q then some r else find (connects_telegram b) rows) ≡ some l
        → (find (connects_telegram a) rows ≡ some k
            → find (connects_telegram b) rows ≡ some l
            → a ≡ b)
        → a ≡ b
    go true true e e' f f' rest = sym ((active_of a r e).0) ∙ (active_of b r e').0
    go true false e e' f f' rest =
        never l.user_id r.user_id (apart r b rows (active_of a r e).1 free f') (user f ∙ same)
    go false true e e' f f' rest =
        never k.user_id r.user_id (apart r a rows (active_of b r e').1 free f) (user f' ∙ sym same)
    go false false e e' f f' rest = rest f f'

resolved :
    (a : ℕ) (s : Store) {u : User}
    → resolve a s ≡ some u
    → (k : TelegramConnection) × (find (connects_telegram a) s.connections ≡ some k)
      × (k.user_id ≡ u.id)
unfolding resolve active_connection_for_telegram_user
resolved a s {u = u} h = go (find (connects_telegram a) s.connections) refl h
  where
    on_user :
        (k : TelegramConnection) (o : Option User)
        → find (λ (v : User). v.id == k.user_id) s.users ≡ o
        → active_only o ≡ some u
        → k.user_id ≡ u.id
    on_user k none e q = cc
    on_user k (some v) e q =
        ground (arith, find_satisfies (λ (w : User). w.id == k.user_id) s.users e)

    go :
        (o : Option TelegramConnection)
        → find (connects_telegram a) s.connections ≡ o
        → user_of_connection o s.users ≡ some u
        → (k : TelegramConnection) × (find (connects_telegram a) s.connections ≡ some k)
          × (k.user_id ≡ u.id)
    go none p q = cc
    go (some k) p q = (k, p, on_user k (find (λ (v : User). v.id == k.user_id) s.users) refl q)

-- In a database that the transactions of the ceremony made from one without connections, two Telegram accounts that act as the same user are the same account.
pub resolve_injective :
    {start s : Store} (a b : ℕ) {u v : User}
    → start.connections ≡ []
    → Reach start s
    → resolve a s ≡ some u
    → resolve b s ≡ some v
    → u.id ≡ v.id
    → a ≡ b
resolve_injective {s = s} a b empty steps h h' same =
    let (k, found, user) = resolved a s h in
    let (l, found', user') = resolved b s h' in
    one_account a b s.connections (links-IsExclusive empty steps) found found'
      (user ∙ same ∙ sym user')
