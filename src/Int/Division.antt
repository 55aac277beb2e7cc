-- ===== src/Int/Division.antt =====
-- `Div` by a positive divisor rounds down.
use anytoken_distribution.Base.{ℕ, ◌-◌, ◌/◌, ◌%◌, ◌<◌, ◌≡◌, arith}
use anytoken_distribution.Int.{ℤ, pos, negsuc, ◌+ℤ◌, ◌*ℤ◌, ◌/ℤ◌, *ℤ_parts, int_laws}
use native.Mathlib.Nat.{div-add-mod, mod-lt}

pub div_remainder : (x : ℤ) (k : ℕ) → 0 < k → (r : ℕ) × (r < k) × (x ≡ x /ℤ pos k *ℤ pos k +ℤ pos r)
unfolding ◌/ℤ◌
div_remainder (pos n) k h =
    (n % k, omega arith, omega (int_laws, *ℤ_parts (pos (n / k)) (pos k), div-add-mod n k))
div_remainder (negsuc n) k h = (
  k - 1 - n % k,
  omega arith,
  omega (int_laws, *ℤ_parts (negsuc (n / k)) (pos k), div-add-mod n k, mod-lt n h),
)
