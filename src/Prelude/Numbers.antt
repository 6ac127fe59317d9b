-- ===== src/Prelude/Numbers.antt =====
-- Powers of native numbers.
use Prim.Native.Nat.{ℕ, zero, suc, ◌^◌, ◌<◌}
use native.Mathlib.Nat.{pow-suc}
use native.Mathlib.Omega.{arith}

pub pow_pos : (w : ℕ) → 0 < 2 ^ w
pow_pos zero = omega arith
pow_pos (suc w) = omega (arith, pow_pos w, pow-suc 2 w)
