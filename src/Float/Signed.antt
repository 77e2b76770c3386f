-- ===== src/Float/Signed.antt =====
-- Python's finite floats with a sign: a magnitude in units of 2 ^ -1074. The two zeros are equal.
use evoeventmem.Prelude.{ℕ, ◌+◌, ◌-◌, Bool, false, ltb, leb, not, ◌&&◌, ◌==◌, nat_eq, if◌then◌else◌}
use evoeventmem.Float.{round}

pub data Signed : Type 0 where
  plus minus : ℕ → Signed

-- `a < b`
unfoldable pub less : Signed → Signed → Bool
less (plus a) (plus b) = ltb a b
less (plus a) (minus b) = false
less (minus a) (plus b) = not (a == 0 && b == 0)
less (minus a) (minus b) = ltb b a

-- `a + b`
unfoldable pub sum : Signed → Signed → Signed
sum (plus a) (plus b) = plus (round (a + b) 1)
sum (minus a) (minus b) = minus (round (a + b) 1)
sum (plus a) (minus b) = if leb b a then plus (round (a - b) 1) else minus (round (b - a) 1)
sum (minus a) (plus b) = if leb a b then plus (round (b - a) 1) else minus (round (a - b) 1)
