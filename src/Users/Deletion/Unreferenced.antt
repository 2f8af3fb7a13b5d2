-- ===== src/Users/Deletion/Unreferenced.antt =====
-- When no row that stays refers to a row that goes.
use mint_flow.Prelude.{
  ℕ, Bool, true, false, List, [], ◌∷◌, map, filter, ◌≡◌, refl, ap, ◌==◌, not, if◌then◌else◌, All,
  All-filter, All-imp, arith, filter-all,
}
use mint_flow.Users.Deletion.References.{any, any_refers}
use mint_flow.Users.Deletion.Statements.{owned, others}

-- A row refers to rows of its own owner only.
unfoldable pub SameOwner :
    {A B : Type 0} (refers : A → B → Bool) → (A → ℕ) → (B → ℕ) → List A → List B → Type 0
SameOwner refers owner owner' rows targets =
    All (λ a. All (λ b. refers a b ≡ true → owner a ≡ owner' b) targets) rows

pub any-none :
    {A : Type 0} (p : A → Bool) (rows : List A) → All (λ a. p a ≡ false) rows → any p rows ≡ false
any-none p [] h = refl
any-none p (a ∷ rows) (h, rest) = rw h (any-none p rows rest)

pub map-same :
    {A : Type 0} (f : A → A) (rows : List A) → All (λ a. f a ≡ a) rows → map f rows ≡ rows
map-same f [] h = refl
map-same f (a ∷ rows) (h, rest) = rw h (ap (λ l. a ∷ l) (map-same f rows rest))

pub All-all : {A : Type 0} {P : A → Type 0} → ((a : A) → P a) → (rows : List A) → All P rows
All-all f [] = tt
All-all f (a ∷ rows) = (f a, All-all f rows)

pub is_false : (b : Bool) → not b ≡ true → b ≡ false
is_false true h = cc
is_false false h = refl

-- No row of the user is left among the others.
pub none_left :
    {A : Type 0} (owner : A → ℕ) (user_id : ℕ) (rows : List A)
    → any (λ a. owner a == user_id) (others owner user_id rows) ≡ false
none_left owner user_id rows = any-none _ _ (
    All-imp (λ a h. is_false _ h.1) _
      (All-filter _ (λ a. not (owner a == user_id)) rows
        (All-all {P = λ a. Unit {0}} (λ a. tt) rows)))

module _ {A B : Type 0} (refers : A → B → Bool) (owner : A → ℕ) (owner' : B → ℕ) (user_id : ℕ) where
  row_refers :
      (a : A) (targets : List B)
      → (owner a == user_id) ≡ false
      → All (λ b. refers a b ≡ true → owner a ≡ owner' b) targets
      → any (refers a) (owned owner' user_id targets) ≡ false
  row_refers a [] h same = refl
  row_refers a (b ∷ targets) h (same, rest) =
      go (owner' b == user_id) refl (refers a b) refl (row_refers a targets h rest)
    where
      go :
          (c : Bool)
          → (owner' b == user_id) ≡ c
          → (r : Bool) → refers a b ≡ r
          → any (refers a) (owned owner' user_id targets) ≡ false
          → any
              (refers a)
              (if c then b ∷ owned owner' user_id targets else owned owner' user_id targets)
            ≡ false
      go false e r e' k = k
      go true e false e' k = rw e' k
      go true e true e' k = let p = same e' in grind arith

  -- No row that stays refers to a row that goes.
  pub stays :
      (rows : List A) (targets : List B)
      → SameOwner refers owner owner' rows targets
      → All (λ a. any (refers a) (owned owner' user_id targets) ≡ false) (others owner user_id rows)
  unfolding SameOwner
  stays rows targets same =
      All-imp (λ a h. row_refers a targets (is_false _ h.1) h.0) _
        (All-filter _ (λ a. not (owner a == user_id)) rows same)

  pub unreferenced :
      (rows : List A) (targets : List B)
      → SameOwner refers owner owner' rows targets
      → any_refers refers (others owner user_id rows) (owned owner' user_id targets) ≡ false
  unreferenced rows targets same = any-none _ _ (stays rows targets same)

  -- A cascade from what goes takes nothing of what stays.
  pub spared :
      (rows : List A) (targets : List B)
      → SameOwner refers owner owner' rows targets
      → filter
          (λ a. not (any (refers a) (owned owner' user_id targets)))
          (others owner user_id rows)
        ≡ others owner user_id rows
  spared rows targets same = filter-all _ _ (All-imp (λ a h. rw h refl) _ (stays rows targets same))

  -- Setting null what refers to what goes changes nothing of what stays.
  pub uncleared :
      (clear : A → A) (rows : List A) (targets : List B)
      → SameOwner refers owner owner' rows targets
      → map
          (λ a. if any (refers a) (owned owner' user_id targets) then clear a else a)
          (others owner user_id rows)
        ≡ others owner user_id rows
  uncleared clear rows targets same =
      map-same _ _ (All-imp (λ a h. rw h refl) _ (stays rows targets same))
