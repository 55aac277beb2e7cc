-- ===== src/Base/Numbers.antt =====
-- Facts about quotients of native numbers.
use Prim.Native.Nat.{ℕ, ◌*◌, ◌/◌, ◌≤◌, ◌<◌}
use native.Mathlib.Nat.{div-lt_iff_lt-mul, mul-le-mul_right}
use native.Mathlib.Decide.{dec_lt}
use native.Mathlib.Omega.{arith}

pub div_pos : (a b : ℕ) → 0 < b → b ≤ a → 0 < a / b
div_pos a b hb h = elim (dec_lt (a / b) 1) [
  | yes less ↦ absurd (omega (arith, (div-lt_iff_lt-mul {k = b} {x = a} {y = 1} hb).0 less))
  | no more ↦ omega arith
]

-- A whole part fits into what it divides.
pub le-div-mul : (a b : ℕ) → 0 < b → b ≤ a → b ≤ a / b * b
le-div-mul a b hb h = omega (arith, mul-le-mul_right {m = 1} {n = a / b} b (div_pos a b hb h))
