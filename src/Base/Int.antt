-- ===== src/Base/Int.antt =====
-- Signed integers, where the source tests a number for being negative.
use Prim.Native.Nat.{ℕ, min, ◌≤◌}
use native.Mathlib.Omega.{arith}

-- `negsuc n` is -(n + 1).
pub data ℤ : Type 0 where
  pos : ℕ → ℤ
  negsuc : ℕ → ℤ

-- `Math.max(0, Math.min(top, i))`, at a bound `top` that is not negative
abbrev pub clamp_to : ℕ → ℤ → ℕ
clamp_to top (pos n) = min top n
clamp_to top (negsuc n) = 0

pub clamp_to-le : (top : ℕ) (i : ℤ) → clamp_to top i ≤ top
clamp_to-le top (pos n) = omega arith
clamp_to-le top (negsuc n) = omega arith
