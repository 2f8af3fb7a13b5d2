-- ===== src/Analytics/Dashboard/Shares.antt =====
-- `share_basis_points` of src/mintflow/application/analytics/dashboard.py, and Python's `round` of a
-- fraction: the floor or the next integer, by the remainder, and between the two the even one.
use mint_flow.Prelude.{
  ℕ, zero, suc, ◌+◌, ◌-◌, ◌*◌, ◌/◌, ◌%◌, ◌≤◌, ◌<◌, ◌≡◌, ◌⊎◌, refl, inl, inr, arith, Bool,
  Bool-cases, ltb, ◌==◌, if◌then◌else◌,
}
use mint_flow.Prelude.Int.{ℤ, pos, negsuc, pos_part, neg_part, sub_ℕ}
use native.Mathlib.Nat.{div-add-mod', mod-lt}

abbrev pub basis_points : ℕ
basis_points = 10000

abbrev suc_ℤ : ℤ → ℤ
suc_ℤ (pos n) = pos (n + 1)
suc_ℤ (negsuc zero) = pos 0
suc_ℤ (negsuc (suc n)) = negsuc n

abbrev is_even : ℤ → Bool
is_even (pos n) = n % 2 == 0
is_even (negsuc n) = n % 2 == 1

abbrev times : ℤ → ℕ → ℤ
times (pos n) k = pos (n * k)
times (negsuc n) k = sub_ℕ 0 ((n + 1) * k)

-- `divmod` by a positive number, which rounds down
abbrev floor_div : ℤ → ℕ → ℤ
floor_div (pos n) d = pos (n / d)
floor_div (negsuc n) d = negsuc (n / d)

abbrev floor_mod : ℤ → ℕ → ℕ
floor_mod (pos n) d = n % d
floor_mod (negsuc n) d = d - 1 - n % d

abbrev nearest : ℤ → ℕ → ℕ → ℤ
nearest floor remainder d =
    if ltb (remainder * 2) d
    then floor
    else if ltb d (remainder * 2)
    then suc_ℤ floor
    else if is_even floor
    then floor
    else suc_ℤ floor

-- `round(Fraction(n, d))`
abbrev round : ℤ → ℕ → ℤ
round n d = nearest (floor_div n d) (floor_mod n d) d

unfoldable pub share_basis_points : ℤ → ℤ → ℤ
share_basis_points part (negsuc w) = pos 0
share_basis_points part (pos zero) = pos 0
share_basis_points part (pos (suc w)) = round (times part basis_points) (suc w)

-- `s` is within half a basis point of `part / whole`: 2 |s * whole - part * 10000| <= whole
abbrev pub IsNearest : ℤ → ℕ → ℤ → Type 0
IsNearest part whole s =
    (2 * (neg_part s * whole) + 2 * (pos_part part * basis_points)
      ≤ 2 * (pos_part s * whole) + 2 * (neg_part part * basis_points) + whole)
    × (2 * (pos_part s * whole) + 2 * (neg_part part * basis_points)
        ≤ 2 * (neg_part s * whole) + 2 * (pos_part part * basis_points) + whole)

-- `s * w` is within w / 2 of `up - down`
IsHalf : ℕ → ℕ → ℕ → ℤ → Type 0
IsHalf up down w s =
    (2 * (neg_part s * w) + 2 * up ≤ 2 * (pos_part s * w) + 2 * down + w)
    × (2 * (pos_part s * w) + 2 * down ≤ 2 * (neg_part s * w) + 2 * up + w)

distribute : (q w : ℕ) → (q + 1) * w ≡ q * w + w
distribute q w = grind arith

nearest-cases :
    (f : ℤ) (r w : ℕ) → ((nearest f r w ≡ f) × r * 2 ≤ w) ⊎ ((nearest f r w ≡ suc_ℤ f) × w ≤ r * 2)
nearest-cases f r w = elim (Bool-cases (ltb (r * 2) w)) [
  | inl h ↦ inl (rw h refl, ground arith)
  | inr h ↦ elim (Bool-cases (ltb w (r * 2))) [
    | inl h' ↦ inr (rw (h, h') refl, ground arith)
    | inr h' ↦ elim (Bool-cases (is_even f)) [
      | inl h'' ↦ inl (rw (h, h', h'') refl, ground arith)
      | inr h'' ↦ inr (rw (h, h', h'') refl, ground arith)
    ]
  ]
]

IsHalf-pos : (q r w : ℕ) → r < w → IsHalf (q * w + r) 0 w (nearest (pos q) r w)
unfolding IsHalf
IsHalf-pos q r w low =
    let more = distribute q w in
    elim (nearest-cases (pos q) r w) [
      | inl (e, h) ↦ rw e (omega arith, omega arith)
      | inr (e, h) ↦ rw e (omega arith, omega arith)
    ]

IsHalf-neg : (q r w : ℕ) → r < w → IsHalf 0 (suc (q * w + r)) w (nearest (negsuc q) (w - 1 - r) w)
unfolding IsHalf
IsHalf-neg q r w low = elim (nearest-cases (negsuc q) (w - 1 - r) w) [
  | inl (e, h) ↦ let more = distribute q w in rw e (grind arith, grind arith)
  | inr (e, h) ↦ rw e (up q h)
]
  where
    up : (q : ℕ) → w ≤ (w - 1 - r) * 2 → IsHalf 0 (suc (q * w + r)) w (suc_ℤ (negsuc q))
    up zero h = (omega arith, omega arith)
    up (suc q) h = (grind arith, grind arith)

round-IsHalf : (z : ℤ) (w : ℕ) → 1 ≤ w → IsHalf (pos_part z) (neg_part z) w (round z w)
round-IsHalf (pos n) w low =
    let small = mod-lt n low in
    let whole = div-add-mod' n w in rw whole at (IsHalf-pos (n / w) (n % w) w small)
round-IsHalf (negsuc n) w low =
    let small = mod-lt n low in
    let whole = div-add-mod' n w in rw whole at (IsHalf-neg (n / w) (n % w) w small)

times-parts :
    (z : ℤ) (k : ℕ)
    → (pos_part (times z k) ≡ pos_part z * k) × (neg_part (times z k) ≡ neg_part z * k)
times-parts (pos n) k = (refl, omega arith)
times-parts (negsuc n) k = (ground arith, ground arith)

-- The share of a part, also a negative one, of a positive whole is the nearest whole number of basis points.
pub share_basis_points-IsNearest :
    (part : ℤ) (whole : ℕ) → 1 ≤ whole → IsNearest part whole (share_basis_points part (pos whole))
unfolding share_basis_points IsHalf
share_basis_points-IsNearest part zero low = absurd (omega arith)
share_basis_points-IsNearest part (suc w) low =
    let half = round-IsHalf (times part basis_points) (suc w) low in
    let (up, down) = times-parts part basis_points in rw (up, down) at half

cap : (n w s : ℕ) → n ≤ w → 1 ≤ w → 2 * (s * w) ≤ 2 * (n * basis_points) + w → s ≤ basis_points
cap n w s le low near = elim (Bool-cases (ltb basis_points s)) [
  | inl h ↦
      let k = s - 10001 in
      let e : s ≡ k + 10001 = ground arith in
      let product : (k + 10001) * w ≡ k * w + 10001 * w = grind arith in
      let near' = rw (e, product) at near in absurd (omega arith)
  | inr h ↦ ground arith
]

-- A part of a whole has from 0 to 10000 basis points.
pub share_basis_points-bounds :
    (part whole : ℕ)
    → part ≤ whole
    → (s : ℕ) × (share_basis_points (pos part) (pos whole) ≡ pos s) × (s ≤ basis_points)
unfolding share_basis_points IsHalf
share_basis_points-bounds part zero le = (0, refl, omega arith)
share_basis_points-bounds part (suc w) le =
    let half = round-IsHalf (pos (part * basis_points)) (suc w) (omega arith) in
    elim (nearest-cases (pos (part * basis_points / suc w)) (part * basis_points % suc w) (suc w)) [
      | inl (e, h) ↦
          let (_, near) = rw e at half in (_, e, cap part (suc w) _ le (omega arith) (omega arith))
      | inr (e, h) ↦
          let (_, near) = rw e at half in (_, e, cap part (suc w) _ le (omega arith) (omega arith))
    ]
