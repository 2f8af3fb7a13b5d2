-- ===== src/Prelude/Lists.antt =====
-- Lists measured by native numbers, under the library's names, and predicates on their elements.
use Prim.Native.Nat.{ℕ, zero, suc, ◌+◌}
use mathlib.Core.Path.{◌≡◌, refl, subst, ap}
use mathlib.Core.Bool.{Bool, true, false}
use mathlib.Core.Option.{Option, none, some, some-injective}
use mathlib.Core.List.{List, [], ◌∷◌, ◌++◌, map}
use native.Mathlib.Omega.{arith}
use mint_flow.Prelude.Tests.{if◌then◌else◌}

module _ {ℓ} {A : Type ℓ} where
  abbrev pub length : List A → ℕ
  length [] = 0
  length (x ∷ xs) = suc (length xs)

  abbrev pub take : ℕ → List A → List A
  take zero xs = []
  take (suc n) [] = []
  take (suc n) (x ∷ xs) = x ∷ take n xs

  abbrev pub drop : ℕ → List A → List A
  drop zero xs = xs
  drop (suc n) [] = []
  drop (suc n) (x ∷ xs) = drop n xs

  -- `[x for x in xs if p(x)]`
  abbrev pub filter : (A → Bool) → List A → List A
  filter p [] = []
  filter p (x ∷ xs) = if p x then x ∷ filter p xs else filter p xs

  -- `next((x for x in xs if p(x)), None)`
  abbrev pub find : (A → Bool) → List A → Option A
  find p [] = none
  find p (x ∷ xs) = if p x then some x else find p xs

  pub length-append : (xs ys : List A) → length (xs ++ ys) ≡ length xs + length ys
  length-append [] ys = omega arith
  length-append (x ∷ xs) ys = omega (arith, length-append xs ys)

-- A predicate on every element, which computes to a tuple.
abbrev pub All {ℓ κ} : {A : Type ℓ} → (A → Type κ) → List A → Type κ
All P (x ∷ rest) = P x × All P rest
All P [] = Unit

-- The rest of a list is searched only where its head does not fit.
pub find_satisfies {ℓ} :
    {A : Type ℓ} (p : A → Bool) (xs : List A) {x : A} → find p xs ≡ some x → p x ≡ true
find_satisfies p [] h = cc
find_satisfies p (y ∷ ys) {x = x} h = go (p y) refl h (find_satisfies p ys)
  where
    go :
        (b : Bool)
        → p y ≡ b
        → (if b then some y else find p ys) ≡ some x
        → (find p ys ≡ some x → p x ≡ true)
        → p x ≡ true
    go true here k rest = subst (λ t. p t ≡ true) (some-injective y x k) here
    go false there k rest = rest k

-- Nothing is found exactly where nothing fits.
pub none_found {ℓ} :
    {A : Type ℓ} (p : A → Bool) (x : A) (xs : List A)
    → find p (x ∷ xs) ≡ none
    → (p x ≡ false) × (find p xs ≡ none)
none_found p x xs h = go (p x) refl h
  where
    go :
        (b : Bool)
        → p x ≡ b
        → (if b then some x else find p xs) ≡ none
        → (p x ≡ false) × (find p xs ≡ none)
    go true here k = cc
    go false there k = (there, k)

-- What a list is filtered by holds of what is left.
pub All-filter {ℓ κ} :
    {A : Type ℓ} (P : A → Type κ) (p : A → Bool) (xs : List A)
    → All P xs
    → All (λ x. P x × (p x ≡ true)) (filter p xs)
All-filter P p [] h = tt
All-filter P p (x ∷ xs) (h, hs) = go (p x) refl (All-filter P p xs hs)
  where
    go :
        (b : Bool)
        → p x ≡ b
        → All (λ y. P y × (p y ≡ true)) (filter p xs)
        → All (λ y. P y × (p y ≡ true)) (if b then x ∷ filter p xs else filter p xs)
    go true e rest = ((h, e), rest)
    go false e rest = rest

pub All-map {ℓ κ ι} :
    {A : Type ℓ} {B : Type κ} (P : B → Type ι) (f : A → B) (xs : List A)
    → All (λ x. P (f x)) xs
    → All P (map f xs)
All-map P f [] h = tt
All-map P f (x ∷ xs) (h, hs) = (h, All-map P f xs hs)

-- Two filters are one.
pub filter-filter {ℓ} :
    {A : Type ℓ} (p q r : A → Bool)
    → ((x : A) → r x ≡ (if p x then q x else false))
    → (xs : List A) → filter r xs ≡ filter q (filter p xs)
filter-filter p q r e [] = refl
filter-filter p q r e (x ∷ xs) = go (p x) (q x) (r x) refl (e x) (filter-filter p q r e xs)
  where
    go :
        (a b c : Bool)
        → q x ≡ b
        → c ≡ (if a then b else false)
        → filter r xs ≡ filter q (filter p xs)
        → (if c then x ∷ filter r xs else filter r xs)
          ≡ filter q (if a then x ∷ filter p xs else filter p xs)
    go true true c k h rest = rw (h, k) (ap (λ l. x ∷ l) rest)
    go true false c k h rest = rw (h, k) rest
    go false b c k h rest = rw h rest

pub All-imp {ℓ κ ι} :
    {A : Type ℓ} {P : A → Type κ} {Q : A → Type ι}
    → ((x : A) → P x → Q x)
    → (xs : List A) → All P xs
    → All Q xs
All-imp f [] h = tt
All-imp f (x ∷ xs) (h, hs) = (f x h, All-imp f xs hs)

-- A filter that fits everything changes nothing.
pub filter-all {ℓ} :
    {A : Type ℓ} (p : A → Bool) (xs : List A) → All (λ x. p x ≡ true) xs → filter p xs ≡ xs
filter-all p [] h = refl
filter-all p (x ∷ xs) (h, hs) = rw h (ap (λ l. x ∷ l) (filter-all p xs hs))
