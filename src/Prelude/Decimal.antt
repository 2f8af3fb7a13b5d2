-- ===== src/Prelude/Decimal.antt =====
-- Python's `decimal`, as far as the sources use it: finite numbers that are not negative, in the
-- default context, which keeps 28 digits and rounds half to even. Its limits on exponents are left
-- out.
use Prim.Native.Nat.{ℕ, zero, suc, ◌+◌, ◌-◌, ◌*◌, ◌/◌, ◌%◌, ◌^◌}
use mathlib.Core.Bool.{true, false}
use mathlib.Core.Option.{Option, none, some}
use mint_flow.Prelude.Int.{ℤ, pos, ◌+ℤ◌, ◌-ℤ◌, sub_ℕ, pos_part, neg_part}
use mint_flow.Prelude.Tests.{ltb, ◌==◌, if◌then◌else◌}

-- coefficient * 10 ^ exponent
pub record Decimal : Type 0 where
  pub coefficient : ℕ
  pub exponent : ℤ

abbrev pub precision : ℕ
precision = 28

abbrev digits_in : ℕ → ℕ → ℕ
digits_in zero n = 1
digits_in (suc fuel) n = elim (ltb n 10) [ true ↦ 1 | false ↦ suc (digits_in fuel (n / 10)) ]

-- `len(str(n))`; a number has fewer digits than its value
abbrev pub digits : ℕ → ℕ
digits n = digits_in n n

-- n / d, rounded half to even
abbrev pub div_half_even : ℕ → ℕ → ℕ
div_half_even n d =
    if ltb (n % d * 2) d then n / d else if ltb d (n % d * 2) then n / d + 1 else n / d + n / d % 2

abbrev carry : ℕ → ℤ → Decimal
carry c e =
    if ltb precision (digits c)
    then record { coefficient = c / 10; exponent = e +ℤ pos 1 }
    else record { coefficient = c; exponent = e }

-- the rounding that ends each operation
abbrev fix : ℕ → ℤ → Decimal
fix c e =
    let over = digits c - precision in
    if over == 0
    then record { coefficient = c; exponent = e }
    else carry (div_half_even c (10 ^ over)) (e +ℤ pos over)

unfoldable pub mul : Decimal → Decimal → Decimal
mul a b = fix (a.coefficient * b.coefficient) (a.exponent +ℤ b.exponent)

-- an exact quotient loses its trailing zeros, as long as its exponent is below the ideal one
abbrev strip_zeros : ℕ → ℕ → ℤ → Decimal
strip_zeros zero c e = record { coefficient = c; exponent = e }
strip_zeros (suc below) c e = elim (c % 10 == 0) [
  | true ↦ strip_zeros below (c / 10) (e +ℤ pos 1)
  | false ↦ record { coefficient = c; exponent = e }
]

abbrev quotient : ℕ → ℕ → ℤ → ℤ → Decimal
quotient n d e ideal =
    if n % d == 0
    then strip_zeros (pos_part (ideal -ℤ e)) (n / d) e
    else record { coefficient = if n / d % 5 == 0 then n / d + 1 else n / d; exponent = e }

abbrev fix_decimal : Decimal → Decimal
fix_decimal d = fix d.coefficient d.exponent

-- division by a number that is not zero
unfoldable pub div : Decimal → Decimal → Decimal
div a b =
    let ideal = a.exponent -ℤ b.exponent in
    let shift = sub_ℕ (digits b.coefficient + precision + 1) (digits a.coefficient) in
    if a.coefficient == 0
    then record { coefficient = 0; exponent = ideal }
    else fix_decimal (
        quotient (a.coefficient * 10 ^ pos_part shift) (b.coefficient * 10 ^ neg_part shift)
          (ideal -ℤ shift) ideal)

-- `d.scaleb(n)`
unfoldable pub scaleb : Decimal → ℤ → Decimal
scaleb d n = fix d.coefficient (d.exponent +ℤ n)

abbrev within_precision : ℕ → Option ℕ
within_precision n = if ltb precision (digits n) then none else some n

-- `int(d.quantize(Decimal(1), rounding=ROUND_HALF_EVEN))`; none is `InvalidOperation`, for a result
-- of more digits than the context keeps
unfoldable pub to_integer : Decimal → Option ℕ
to_integer d =
    within_precision
      (div_half_even (d.coefficient * 10 ^ pos_part d.exponent) (10 ^ neg_part d.exponent))
