-- ===== src/Authentication/RateLimit/Grants.antt =====
-- How many reservations a bucket grants: exactly as many as its limit allows.
use mathlib.Core.Path.{subst}
use mint_flow.Prelude.{
  ltb→lt, ℕ, ◌+◌, ◌-◌, ◌≤◌, ◌<◌, ◌≡◌, refl, sym, ap, ◌∙◌, Bool, true, false, List, [], ◌∷◌, ◌&&◌,
  ◌==◌, ltb, leb, All, arith, if◌then◌else◌, Bool-cases, inl, inr,
}
use mint_flow.Authentication.RateLimit.{
  RateLimitReservation, Bucket, is_bucket_of, add_one, before_rows, reserve, place,
}

-- the count of the bucket of a reservation, 0 if there is none
abbrev pub count_of : RateLimitReservation → List Bucket → ℕ
count_of k [] = 0
count_of k (b ∷ rows) = if is_bucket_of k b then b.count else count_of k rows

-- reservations of the same bucket
abbrev pub same_bucket : RateLimitReservation → RateLimitReservation → Bool
same_bucket k r =
    place k.dimension == place r.dimension
    && (k.key_digest == r.key_digest && k.window_started_at == r.window_started_at)

same_bucket-rows :
    (k r : RateLimitReservation) (b : Bucket)
    → same_bucket k r ≡ true
    → is_bucket_of k b ≡ is_bucket_of r b
same_bucket-rows k r b h = ground arith

reserve-same :
    (k r : RateLimitReservation) (rows : List Bucket)
    → same_bucket k r ≡ true
    → 1 ≤ r.limit
    → ((reserve r rows).0 ≡ ltb (count_of k rows) r.limit)
      × (count_of k (reserve r rows).1
          ≡ (if ltb (count_of k rows) r.limit then count_of k rows + 1 else count_of k rows))
unfolding reserve
reserve-same k r [] same positive = (ground arith, ground arith)
reserve-same k r (b ∷ rows) same positive = elim (Bool-cases (is_bucket_of r b)) [
  | inl e ↦
      let e' = same_bucket-rows k r b same ∙ e in
      rw (e, e') (on_bucket (ltb b.count r.limit) refl e')
  | inr e ↦
      let (granted, counted) = reserve-same k r rows same positive in
      let e' = same_bucket-rows k r b same ∙ e in rw (e, e') (granted, counted)
]
  where
    on_bucket :
        (c : Bool)
        → ltb b.count r.limit ≡ c
        → is_bucket_of k b ≡ true
        → ((before_rows (add_one r b) rows).0 ≡ ltb b.count r.limit)
          × (count_of k (before_rows (add_one r b) rows).1
              ≡ (if ltb b.count r.limit then b.count + 1 else b.count))
    on_bucket true p e' = rw p (refl, rw e' refl)
    on_bucket false p e' = rw p (refl, rw e' refl)

other_bucket-rows :
    (k r : RateLimitReservation) (b : Bucket)
    → same_bucket k r ≡ false
    → is_bucket_of r b ≡ true
    → is_bucket_of k b ≡ false
other_bucket-rows k r b h e = ground arith

reserve-other :
    (k r : RateLimitReservation) (rows : List Bucket)
    → same_bucket k r ≡ false
    → count_of k (reserve r rows).1 ≡ count_of k rows
unfolding reserve
reserve-other k r [] other = ground arith
reserve-other k r (b ∷ rows) other = elim (Bool-cases (is_bucket_of r b)) [
  | inl e ↦
      let e' = other_bucket-rows k r b other e in rw (e, e') (on_bucket (ltb b.count r.limit) e')
  | inr e ↦ rw (e, reserve-other k r rows other) refl
]
  where
    on_bucket :
        (c : Bool)
        → is_bucket_of k b ≡ false
        → count_of k
            (before_rows
              (if c then (true, record b { count = b.count + 1 }) else (false, b))
              rows).1
          ≡ count_of k rows
    on_bucket true e' = rw e' refl
    on_bucket false e' = rw e' refl

-- the reservations in turn: how many of the bucket of `k` are asked for, and how many granted
abbrev pub asked : RateLimitReservation → List RateLimitReservation → ℕ
asked k [] = 0
asked k (r ∷ rest) = if same_bucket k r then 1 + asked k rest else asked k rest

abbrev pub counts : Bool → Bool → ℕ
counts same allowed = if same && allowed then 1 else 0

abbrev pub granted : RateLimitReservation → List RateLimitReservation → List Bucket → ℕ
granted k [] rows = 0
granted k (r ∷ rest) rows =
    let (allowed, rows') = reserve r rows in counts (same_bucket k r) allowed + granted k rest rows'

abbrev pub min : ℕ → ℕ → ℕ
min a b = if leb a b then a else b

-- every reservation of the bucket of `k` has the limit of `k`
abbrev pub HasLimit : RateLimitReservation → RateLimitReservation → Type 0
HasLimit k r = same_bucket k r ≡ true → r.limit ≡ k.limit

step_other : (g n c l : ℕ) → g ≡ min n (l - c) → 0 + g ≡ min n (l - c)
step_other g n c l h = ground arith

step_granted : (g n c l : ℕ) → c < l → g ≡ min n (l - (c + 1)) → 1 + g ≡ min (1 + n) (l - c)
step_granted g n c l below h = ground arith

step_refused : (g n c l : ℕ) → l ≤ c → g ≡ min n (l - c) → 0 + g ≡ min (1 + n) (l - c)
step_refused g n c l full h = ground arith

granted_from :
    (k : RateLimitReservation) (rs : List RateLimitReservation) (rows : List Bucket)
    → 1 ≤ k.limit
    → All (HasLimit k) rs
    → count_of k rows ≤ k.limit
    → granted k rs rows ≡ min (asked k rs) (k.limit - count_of k rows)
granted_from k [] rows positive limits below = ground arith
granted_from k (r ∷ rs) rows positive (l, limits) below = elim (Bool-cases (same_bucket k r)) [
  | inl e ↦
      let (given, counted) = reserve-same k r rows e (subst (λ n. 1 ≤ n) (sym (l e)) positive) in
      rw e (
        on_same (ltb (count_of k rows) k.limit) refl (given ∙ ap (ltb (count_of k rows)) (l e))
          (counted
            ∙ ap (λ n. if ltb (count_of k rows) n then count_of k rows + 1 else count_of k rows)
                (l e))
          (granted_from k rs (reserve r rows).1 positive limits))
  | inr e ↦ rw e (
      step_other (granted k rs (reserve r rows).1) (asked k rs) (count_of k rows) k.limit (
        on_other (reserve-other k r rows e) (granted_from k rs (reserve r rows).1 positive limits)))
]
  where
    on_other :
        count_of k (reserve r rows).1 ≡ count_of k rows
        → (count_of k (reserve r rows).1 ≤ k.limit
            → granted k rs (reserve r rows).1
              ≡ min (asked k rs) (k.limit - count_of k (reserve r rows).1))
        → granted k rs (reserve r rows).1 ≡ min (asked k rs) (k.limit - count_of k rows)
    on_other counted rest =
        subst (λ n. granted k rs (reserve r rows).1 ≡ min (asked k rs) (k.limit - n)) counted
          (rest (subst (λ n. n ≤ k.limit) (sym counted) below))

    on_same :
        (b : Bool)
        → ltb (count_of k rows) k.limit ≡ b
        → (reserve r rows).0 ≡ ltb (count_of k rows) k.limit
        → count_of k (reserve r rows).1
          ≡ (if ltb (count_of k rows) k.limit then count_of k rows + 1 else count_of k rows)
        → (count_of k (reserve r rows).1 ≤ k.limit
            → granted k rs (reserve r rows).1
              ≡ min (asked k rs) (k.limit - count_of k (reserve r rows).1))
        → counts true (reserve r rows).0 + granted k rs (reserve r rows).1
          ≡ min (1 + asked k rs) (k.limit - count_of k rows)
    on_same true p given counted rest =
        let counted' : count_of k (reserve r rows).1 ≡ count_of k rows + 1 = rw p at counted in
        rw (given, p)
          (step_granted (granted k rs (reserve r rows).1) (asked k rs) (count_of k rows) k.limit
            (ltb→lt (count_of k rows) k.limit p)
            (subst (λ n. granted k rs (reserve r rows).1 ≡ min (asked k rs) (k.limit - n)) counted'
              (rest (subst (λ n. n ≤ k.limit) (sym counted') (within p)))))
      where
        within : ltb (count_of k rows) k.limit ≡ true → count_of k rows + 1 ≤ k.limit
        within q = ground arith
    on_same false p given counted rest =
        rw (given, p)
          (step_refused (granted k rs (reserve r rows).1) (asked k rs) (count_of k rows) k.limit
            (full p) (on_other (rw p at counted) rest))
      where
        full : ltb (count_of k rows) k.limit ≡ false → k.limit ≤ count_of k rows
        full q = ground arith

minus_zero : (n : ℕ) → n - 0 ≡ n
minus_zero n = omega arith

-- From no buckets on, the reservations of one key and window are granted exactly up to the limit,
-- which is positive, whatever other reservations are made between them.
pub granted-eq_min :
    (k : RateLimitReservation) (rs : List RateLimitReservation)
    → 1 ≤ k.limit
    → All (HasLimit k) rs
    → granted k rs [] ≡ min (asked k rs) k.limit
granted-eq_min k rs positive limits =
    granted_from k rs [] positive limits (omega arith) ∙ ap (min (asked k rs)) (minus_zero k.limit)
