-- ===== src/Schema/Decimals.antt =====
-- The float64 values of a request (height, weight, crop) as decimals with at most six digits after
-- the point, in millionths. JSON has no NaN and no infinity.
use meetgo_dating_server.Prelude.{ℕ, ◌+◌, ◌*◌, Bool, false, ltb}

pub data Decimal : Type 0 where
  plus : ℕ → Decimal
  minus : ℕ → Decimal

-- `x < b` and `x > b` for a bound b of the source, in millionths, b ≥ 0.
abbrev pub below : Decimal → ℕ → Bool
below (plus n) b = ltb n b
below (minus n) b = ltb 0 n

abbrev pub above : Decimal → ℕ → Bool
above (plus n) b = ltb b n
above (minus n) b = false

-- x + y, for summands that have passed the test `x ≥ 0`
abbrev pub sum_above : Decimal → Decimal → ℕ → Bool
sum_above (plus m) (plus n) b = ltb b (m + n)
sum_above _ _ b = false

abbrev pub units : ℕ → ℕ
units n = n * 1000000
