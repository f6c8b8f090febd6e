-- ===== src/Prelude/Powers.antt =====
-- Powers of two.
use Prim.Native.Nat.{ℕ, suc, ◌^◌, ◌≤◌, ◌<◌}
use native.Mathlib.Nat.{pow-suc, pow-le-pow_right, one-le-pow}
use native.Mathlib.Omega.{arith}

pub two_pow_pos : (k : ℕ) → 0 < 2 ^ k
two_pow_pos k = one-le-pow k 2 (omega arith)

pub two_pow_mono : (j k : ℕ) → j ≤ k → 2 ^ j ≤ 2 ^ k
two_pow_mono j k h = pow-le-pow_right {n = 2} (omega arith) h

pub two_pow_lt : (j k : ℕ) → j < k → 2 ^ j < 2 ^ k
two_pow_lt j k h = omega (arith, two_pow_mono (suc j) k h, pow-suc 2 j, two_pow_pos j)
