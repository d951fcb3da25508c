-- ===== src/Base/Double.antt =====
-- The rounding of Python's float, for a quotient of two naturals that is 0 or at least 2 ** -28: the
-- nearest double, ties to the even significand, as a fraction.
use Prim.Native.Nat.{ℕ, zero, suc, ◌+◌, ◌*◌, ◌/◌, ◌%◌, ◌^◌}
use mathlib.Core.Bool.{true, false}
use mathlib.Core.Path.{◌≡◌, refl}
use smart_monitor_back_end.Base.Tests.{ltb, eqb, if◌then◌else◌}

round_half_even : ℕ → ℕ → ℕ
round_half_even p q =
    let d = p / q in
    let r = 2 * (p % q) in
    if ltb r q then d else if ltb q r then suc d else if eqb (d % 2) 0 then d else suc d

-- Doubles the numerator until the significand has 53 bits; `den` is the power of two so far.
grow : ℕ → ℕ → ℕ → ℕ → ℕ × ℕ
unfolding round_half_even
grow zero p q den = (round_half_even p q, den)
grow (suc fuel) p q den = elim (ltb (p / q) (2 ^ 52)) [
  | true ↦ grow fuel (2 * p) q (2 * den)
  | false ↦ (round_half_even p q, den)
]

-- Doubles the denominator until the significand has 53 bits; `num` is the power of two so far.
shrink : ℕ → ℕ → ℕ → ℕ → ℕ × ℕ
unfolding round_half_even
shrink zero p q num = (round_half_even p q * num, 1)
shrink (suc fuel) p q num = elim (ltb (p / q) (2 ^ 53)) [
  | true ↦ (round_half_even p q * num, 1)
  | false ↦ shrink fuel p (2 * q) (2 * num)
]

nearest : ℕ → ℕ → ℕ × ℕ
unfolding grow shrink
nearest p q = elim (ltb (p / q) (2 ^ 53)) [ true ↦ grow 80 p q 1 | false ↦ shrink 1024 p q 1 ]

-- int(x)
truncate : ℕ × ℕ → ℕ
truncate (p, q) = p / q

-- int(float(n)), for an `n` that float() accepts
unfoldable pub int_of_float : ℕ → ℕ
unfolding nearest truncate
int_of_float n = truncate (nearest n 1)

-- int(seconds * 1000), where `seconds` is the `total_seconds()` of that many microseconds
unfoldable pub int_milliseconds : ℕ → ℕ
unfolding nearest truncate
int_milliseconds microseconds =
    let (p, q) = nearest microseconds 1000000 in truncate (nearest (p * 1000) q)

exact_milliseconds : int_milliseconds 14999000 ≡ 14999
unfolding int_milliseconds
exact_milliseconds = refl

-- 1.001 * 1000 is 1000.9999999999999
short_milliseconds : int_milliseconds 1001000 ≡ 1000
unfolding int_milliseconds
short_milliseconds = refl

odd_int : int_of_float (2 ^ 53 + 1) ≡ 2 ^ 53
unfolding int_of_float
odd_int = refl
