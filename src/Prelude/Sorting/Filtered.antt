-- ===== src/Prelude/Sorting/Filtered.antt =====
-- Sorting what passes a test is taking what passes it from the sorted list.
use mathlib.Core.Path.{◌≡◌, refl, sym, ◌∙◌, ap}
use mathlib.Core.Logic.{inl, inr}
use mathlib.Core.Bool.{Bool, true, false}
use mathlib.Core.List.{List, [], ◌∷◌}
use mint_flow.Prelude.Lists.{All, filter}
use mint_flow.Prelude.Sorting.{insert_by, sort_by, Ascending, IsOrder, sort_by-Ascending}
use mint_flow.Prelude.Tests.{if◌then◌else◌, Bool-cases}

module _ {ℓ} {A : Type ℓ} (p : A → Bool) (less : A → A → Bool) where
  -- what is not less than any stands first
  insert_first :
      (x : A) (xs : List A)
      → All (λ y. less y x ≡ false) xs
      → insert_by less x (filter p xs) ≡ x ∷ filter p xs
  unfolding insert_by
  insert_first x [] h = refl
  insert_first x (y ∷ ys) (k, h) = go (p y) refl (insert_first x ys h)
    where
      go :
          (b : Bool)
          → p y ≡ b
          → insert_by less x (filter p ys) ≡ x ∷ filter p ys
          → insert_by less x (filter p (y ∷ ys)) ≡ x ∷ filter p (y ∷ ys)
      go true e rest = rw (e, k) refl
      go false e rest = rw e rest

  insert_by-kept :
      IsOrder less
      → (x : A) (xs : List A) → p x ≡ true
      → Ascending less xs
      → filter p (insert_by less x xs) ≡ insert_by less x (filter p xs)
  unfolding insert_by
  insert_by-kept o x [] h a = rw h refl
  insert_by-kept o x (y ∷ ys) h (above, a) =
      let ih = insert_by-kept o x ys h a in
      elim (Bool-cases (less y x)) [
        | inl e ↦ later e ih (p y) refl
        | inr e ↦ rw e (rw h (sym (insert_first x (y ∷ ys) (e, all_above ys e above))))
      ]
    where
      all_above :
          (zs : List A)
          → less y x ≡ false
          → All (λ z. less z y ≡ false) zs
          → All (λ z. less z x ≡ false) zs
      all_above [] e hs = tt
      all_above (z ∷ zs) e (k, hs) = (o.trans x y z e k, all_above zs e hs)

      later :
          less y x ≡ true
          → filter p (insert_by less x ys) ≡ insert_by less x (filter p ys)
          → (b : Bool) → p y ≡ b
          → filter p (insert_by less x (y ∷ ys)) ≡ insert_by less x (filter p (y ∷ ys))
      later e ih true k = rw (k, e) (rw k (ap (λ l. y ∷ l) ih))
      later e ih false k = rw (k, e) (rw k ih)

  insert_by-dropped :
      (x : A) (xs : List A) → p x ≡ false → filter p (insert_by less x xs) ≡ filter p xs
  unfolding insert_by
  insert_by-dropped x [] h = rw h refl
  insert_by-dropped x (y ∷ ys) h =
      let ih = insert_by-dropped x ys h in
      elim (Bool-cases (less y x)) [
        | inl e ↦ rw e (ap (λ l. if p y then y ∷ l else l) ih)
        | inr e ↦ rw (e, h) refl
      ]

  pub sort_by-filter :
      IsOrder less → (xs : List A) → sort_by less (filter p xs) ≡ filter p (sort_by less xs)
  unfolding sort_by
  sort_by-filter o [] = refl
  sort_by-filter o (x ∷ xs) =
      let ih = sort_by-filter o xs in
      elim (Bool-cases (p x)) [
        | inl h ↦ rw h (
            ap (insert_by less x) ih
            ∙ sym (insert_by-kept o x (sort_by less xs) h (sort_by-Ascending less o xs)))
        | inr h ↦ rw h (ih ∙ sym (insert_by-dropped x (sort_by less xs) h))
      ]
