-- ===== src/Int/Ring.antt =====
-- Laws of the integers that sums of products need.
use anytoken_distribution.Base.{ℕ, ◌*◌, ◌≡◌, List, [], ◌∷◌, ◌++◌, ap}
use anytoken_distribution.Int.{ℤ, pos_part, neg_part, ◌+ℤ◌, ◌*ℤ◌, sum, +ℤ_parts, *ℤ_parts, int_laws}

pub +ℤ-*ℤ : (a b c : ℤ) → (a +ℤ b) *ℤ c ≡ a *ℤ c +ℤ b *ℤ c
+ℤ-*ℤ a b c = omega (
  int_laws,
  *ℤ_parts (a +ℤ b) c,
  *ℤ_parts a c,
  *ℤ_parts b c,
  ap (λ (m : ℕ). m * pos_part c) (+ℤ_parts a b),
  ap (λ (m : ℕ). m * neg_part c) (+ℤ_parts a b),
)

pub *ℤ_comm : (a b : ℤ) → a *ℤ b ≡ b *ℤ a
*ℤ_comm a b = omega (int_laws, *ℤ_parts a b, *ℤ_parts b a)

pub *ℤ-+ℤ : (a b c : ℤ) → a *ℤ (b +ℤ c) ≡ a *ℤ b +ℤ a *ℤ c
*ℤ-+ℤ a b c = rw (*ℤ_comm a (b +ℤ c), *ℤ_comm a b, *ℤ_comm a c) (+ℤ-*ℤ b c a)

pub sum-append : (xs ys : List ℤ) → sum (xs ++ ys) ≡ sum xs +ℤ sum ys
unfolding sum
sum-append [] ys = omega int_laws
sum-append (x ∷ xs) ys = rw (sum-append xs ys) (omega int_laws)
