-- ===== src/Prelude/Int.antt =====
-- Signed integers over the native numbers, for what the source computes as a Go `int`.
use Prim.Native.Nat.{ℕ, ◌+◌, ◌-◌}
use mathlib.Core.Path.{◌≡◌}
use mathlib.Core.Logic.{◌↔◌}
use native.Mathlib.Omega.{arith}
use mathlib.Core.Bool.{Bool, true, false}
use meetgo_dating_server.Prelude.Tests.{ltb, leb, ◌==◌, if◌then◌else◌}

-- `negsuc n` is -(n + 1).
pub data ℤ : Type 0 where
  pos negsuc : ℕ → ℤ

-- a - b
unfoldable pub sub_ℕ : ℕ → ℕ → ℤ
sub_ℕ a b = if ltb a b then negsuc (b - a - 1) else pos (a - b)

-- `i < b` and `i > b` for a bound b ≥ 0 of the source
abbrev pub int_below : ℤ → ℕ → Bool
int_below (pos n) b = ltb n b
int_below (negsuc n) b = true

abbrev pub int_above : ℤ → ℕ → Bool
int_above (pos n) b = ltb b n
int_above (negsuc n) b = false

-- i - 1
abbrev pub int_pred : ℤ → ℤ
int_pred (pos n) = if leb n 0 then negsuc 0 else pos (n - 1)
int_pred (negsuc n) = negsuc (n + 1)

-- i == j
abbrev pub int_eq : ℤ → ℤ → Bool
int_eq (pos m) (pos n) = m == n
int_eq (negsuc m) (negsuc n) = m == n
int_eq (pos m) (negsuc n) = false
int_eq (negsuc m) (pos n) = false

pub int_eq_iff : (i j : ℤ) → (int_eq i j ≡ true) ↔ (i ≡ j)
int_eq_iff (pos m) (pos n) = ground arith
int_eq_iff (negsuc m) (negsuc n) = ground arith
int_eq_iff (pos m) (negsuc n) = ground arith
int_eq_iff (negsuc m) (pos n) = ground arith
