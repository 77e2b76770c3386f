-- ===== src/Float.antt =====
-- Python's non-negative finite floats: a double is the number of units of 2 ^ -1074 that it is, so
-- `<=` on doubles is `≤` on numbers, and each operation rounds its exact result to 53 bits, half to even.
-- Overflow to infinity is not modelled: the program's values stay below 2 ^ 53.
pub mod Signed
use Prim.Native.Nat.{◌/◌, ◌%◌}
use evoeventmem.Prelude.{
  ℕ, zero, suc, ◌+◌, ◌-◌, ◌*◌, ◌^◌, ◌≡◌, refl, Bool, ltb, ◌==◌, nat_eq, if◌then◌else◌, min,
}

-- `int.bit_length`, with at least as much fuel as there are bits.
unfoldable pub bit_length : ℕ → ℕ → ℕ
bit_length zero x = 0
bit_length (suc fuel) x = let rest = bit_length fuel (x / 2) in if x == 0 then 0 else rest + 1

-- n / d to the nearest integer, half to even.
unfoldable pub round_div : ℕ → ℕ → ℕ
round_div n d =
    let q = n / d in
    let r = 2 * (n % d) in if ltb r d then q else if ltb d r then q + 1 else q + q % 2

-- The double nearest to n / d units.
unfoldable pub round : ℕ → ℕ → ℕ
unfolding bit_length round_div
round n d = let e = bit_length 2200 (n / d) - 53 in round_div n (d * 2 ^ e) * 2 ^ e

unfoldable pub one : ℕ
one = 2 ^ 1074

-- A decimal literal n / d.
unfoldable pub decimal : ℕ → ℕ → ℕ
unfolding round one
decimal n d = round (n * one) d

unfoldable pub add : ℕ → ℕ → ℕ
unfolding round
add a b = round (a + b) 1

-- a - b for b ≤ a, and 0.0 where the result is not positive
unfoldable pub monus : ℕ → ℕ → ℕ
unfolding round
monus a b = round (a - b) 1

unfoldable pub mul : ℕ → ℕ → ℕ
unfolding round one
mul a b = round (a * b) one

-- The quotient of two integers.
unfoldable pub div : ℕ → ℕ → ℕ
unfolding round one
div a b = round (a * one) b

-- `min(1.0, x)`
abbrev pub at_most_one : ℕ → ℕ
at_most_one x = min one x

-- 0.1 + 0.2 is not 0.3.
sum_rounds : (add (decimal 1 10) (decimal 2 10) == decimal 3 10) ≡ Bool.false
unfolding add decimal
sum_rounds = refl

tenth : decimal 1 10 ≡ 3602879701896397 * 2 ^ 1019
unfolding decimal
tenth = refl
