-- ===== src/Prelude/Sorting.antt =====
-- Python's `sorted`, which is stable, as insertion from the right, and `sum`.
pub mod Filtered
use Prim.Native.Nat.{ℕ, zero, suc, ◌+◌, ◌≤◌}
use mathlib.Core.Path.{◌≡◌, refl, ◌∙◌, ap}
use mathlib.Core.Logic.{◌⊎◌, inl, inr}
use mathlib.Core.Bool.{Bool, true, false}
use mathlib.Core.List.{List, [], ◌∷◌, ◌++◌, Perm}
use mathlib.Core.List.Perm
use native.Mathlib.Omega.{arith}
use mint_flow.Prelude.Lists.{All, filter, take, drop, length}
use mint_flow.Prelude.Tests.{if◌then◌else◌, Bool-cases}

module _ {ℓ} {A : Type ℓ} where
  -- `sum(f(x) for x in xs)`
  abbrev pub sum_of : (A → ℕ) → List A → ℕ
  sum_of f [] = 0
  sum_of f (x ∷ xs) = f x + sum_of f xs

  unfoldable pub insert_by : (A → A → Bool) → A → List A → List A
  insert_by less x [] = x ∷ []
  insert_by less x (y ∷ ys) =
      let rest = insert_by less x ys in if less y x then y ∷ rest else x ∷ y ∷ ys

  unfoldable pub sort_by : (A → A → Bool) → List A → List A
  unfolding insert_by
  sort_by less [] = []
  sort_by less (x ∷ xs) = insert_by less x (sort_by less xs)

  -- no element is less than one before it
  abbrev pub Ascending : (A → A → Bool) → List A → Type ℓ
  Ascending less [] = Unit
  Ascending less (x ∷ xs) = All (λ y. less y x ≡ false) xs × Ascending less xs

  pub insert_by-perm :
      (less : A → A → Bool) (x : A) (xs : List A) → Perm (insert_by less x xs) (x ∷ xs)
  unfolding insert_by
  insert_by-perm less x [] = Perm.rfl
  insert_by-perm less x (y ∷ ys) = elim (Bool-cases (less y x)) [
    | inl h ↦ rw h (Perm.trans (Perm.cons y (insert_by-perm less x ys)) (Perm.swap x y ys))
    | inr h ↦ rw h Perm.rfl
  ]

  pub sort_by-perm : (less : A → A → Bool) (xs : List A) → Perm (sort_by less xs) xs
  unfolding sort_by
  sort_by-perm less [] = Perm.rfl
  sort_by-perm less (x ∷ xs) =
      Perm.trans (insert_by-perm less x (sort_by less xs)) (Perm.cons x (sort_by-perm less xs))

  -- the comparisons that sort
  pub record IsOrder (less : A → A → Bool) : Type ℓ where
    pub asym : (a b : A) → less a b ≡ true → less b a ≡ false
    pub trans : (a b c : A) → less b a ≡ false → less c b ≡ false → less c a ≡ false

  above :
      (less : A → A → Bool)
      → IsOrder less
      → {x y : A} → less y x ≡ false
      → (xs : List A) → All (λ z. less z y ≡ false) xs
      → All (λ z. less z x ≡ false) xs
  above less o h [] hs = tt
  above less o {x} {y} h (z ∷ zs) (k, ks) = (o.trans x y z h k, above less o h zs ks)

  insert_above :
      (less : A → A → Bool) {x y : A}
      → less x y ≡ false
      → (xs : List A) → All (λ z. less z y ≡ false) xs
      → All (λ z. less z y ≡ false) (insert_by less x xs)
  unfolding insert_by
  insert_above less h [] hs = (h, tt)
  insert_above less {x} {y} h (z ∷ zs) (k, ks) = elim (Bool-cases (less z x)) [
    | inl e ↦ rw e (k, insert_above less h zs ks)
    | inr e ↦ rw e (h, (k, ks))
  ]

  insert_by-Ascending :
      (less : A → A → Bool)
      → IsOrder less
      → (x : A) (xs : List A) → Ascending less xs
      → Ascending less (insert_by less x xs)
  unfolding insert_by
  insert_by-Ascending less o x [] a = (tt, tt)
  insert_by-Ascending less o x (y ∷ ys) (above_y, a) = elim (Bool-cases (less y x)) [
    | inl e ↦ rw e (insert_above less (o.asym y x e) ys above_y, insert_by-Ascending less o x ys a)
    | inr e ↦ rw e ((e, above less o e ys above_y), (above_y, a))
  ]

  pub sort_by-Ascending :
      (less : A → A → Bool) → IsOrder less → (xs : List A) → Ascending less (sort_by less xs)
  unfolding sort_by
  sort_by-Ascending less o [] = tt
  sort_by-Ascending less o (x ∷ xs) =
      insert_by-Ascending less o x (sort_by less xs) (sort_by-Ascending less o xs)

  pub sum_of-append : (f : A → ℕ) (xs ys : List A) → sum_of f (xs ++ ys) ≡ sum_of f xs + sum_of f ys
  sum_of-append f [] ys = omega arith
  sum_of-append f (x ∷ xs) ys = omega (arith, sum_of-append f xs ys)

  sum_of-insert_by :
      (f : A → ℕ) (less : A → A → Bool) (x : A) (xs : List A)
      → sum_of f (insert_by less x xs) ≡ f x + sum_of f xs
  unfolding insert_by
  sum_of-insert_by f less x [] = refl
  sum_of-insert_by f less x (y ∷ ys) = elim (Bool-cases (less y x)) [
    | inl e ↦ rw e (omega (arith, sum_of-insert_by f less x ys))
    | inr e ↦ rw e refl
  ]

  pub sum_of-sort_by :
      (f : A → ℕ) (less : A → A → Bool) (xs : List A) → sum_of f (sort_by less xs) ≡ sum_of f xs
  unfolding sort_by
  sum_of-sort_by f less [] = refl
  sum_of-sort_by f less (x ∷ xs) =
      let ih = sum_of-sort_by f less xs in
      sum_of-insert_by f less x (sort_by less xs) ∙ ap (λ s. f x + s) ih

  pub sum_of-take :
      (f : A → ℕ) (n : ℕ) (xs : List A) → sum_of f (take n xs) + sum_of f (drop n xs) ≡ sum_of f xs
  sum_of-take f zero xs = omega arith
  sum_of-take f (suc n) [] = refl
  sum_of-take f (suc n) (x ∷ xs) = omega (arith, sum_of-take f n xs)

  pub length-take : (n : ℕ) (xs : List A) → length (take n xs) ≤ n
  length-take zero xs = omega arith
  length-take (suc n) [] = omega arith
  length-take (suc n) (x ∷ xs) = omega (arith, length-take n xs)

All-insert_by {ℓ κ} :
    {A : Type ℓ} (P : A → Type κ) (less : A → A → Bool) (x : A) (xs : List A)
    → P x
    → All P xs
    → All P (insert_by less x xs)
unfolding insert_by
All-insert_by P less x [] h hs = (h, tt)
All-insert_by P less x (y ∷ ys) h (k, hs) = elim (Bool-cases (less y x)) [
  | inl e ↦ rw e (k, All-insert_by P less x ys h hs)
  | inr e ↦ rw e (h, (k, hs))
]

pub All-sort_by {ℓ κ} :
    {A : Type ℓ} (P : A → Type κ) (less : A → A → Bool) (xs : List A)
    → All P xs
    → All P (sort_by less xs)
unfolding sort_by
All-sort_by P less [] h = tt
All-sort_by P less (x ∷ xs) (h, hs) =
    All-insert_by P less x (sort_by less xs) h (All-sort_by P less xs hs)
