-- ===== src/Volumes/Rearranged.antt =====
-- Sums over a list, and what a rearrangement of the list keeps.
use mathlib.Core.List.{Permᴰ}
use anytoken_distribution.Base.{
  ◌≡◌, refl, ap, ◌∙◌, subst, ℕ, ◌+◌, List, [], ◌∷◌, All, arith, Bool, if◌then◌else◌,
}
use anytoken_distribution.Int.{ℤ, pos, ◌+ℤ◌, int_laws}

module _ {ℓ} {A : Type ℓ} where
  abbrev pub total : (A → ℤ) → List A → ℤ
  total f [] = pos 0
  total f (x ∷ xs) = f x +ℤ total f xs

  abbrev pub tally : (A → ℕ) → List A → ℕ
  tally f [] = 0
  tally f (x ∷ xs) = f x + tally f xs

  -- The members that pass a test.
  abbrev pub keep : (A → Bool) → List A → List A
  keep test [] = []
  keep test (x ∷ xs) = if test x then x ∷ keep test xs else keep test xs

  pub total-Permᴰ : (f : A → ℤ) {xs ys : List A} → Permᴰ xs ys → total f xs ≡ total f ys
  total-Permᴰ f Permᴰ.nil = refl
  total-Permᴰ f (Permᴰ.cons e d) = rw (ap f e, total-Permᴰ f d) refl
  total-Permᴰ f (Permᴰ.swap e e') = rw (ap f e, ap f e') (omega int_laws)
  total-Permᴰ f (Permᴰ.trans d d') = total-Permᴰ f d ∙ total-Permᴰ f d'

  pub tally-Permᴰ : (f : A → ℕ) {xs ys : List A} → Permᴰ xs ys → tally f xs ≡ tally f ys
  tally-Permᴰ f Permᴰ.nil = refl
  tally-Permᴰ f (Permᴰ.cons e d) = rw (ap f e, tally-Permᴰ f d) refl
  tally-Permᴰ f (Permᴰ.swap e e') = rw (ap f e, ap f e') (omega arith)
  tally-Permᴰ f (Permᴰ.trans d d') = tally-Permᴰ f d ∙ tally-Permᴰ f d'

  pub All-Permᴰ {κ} : (P : A → Type κ) {xs ys : List A} → Permᴰ xs ys → All P xs → All P ys
  All-Permᴰ P Permᴰ.nil all = all
  All-Permᴰ P (Permᴰ.cons e d) (here, all) = (subst P e here, All-Permᴰ P d all)
  All-Permᴰ P (Permᴰ.swap e e') (here, (next, all)) = (subst P e' next, (subst P e here, all))
  All-Permᴰ P (Permᴰ.trans d d') all = All-Permᴰ P d' (All-Permᴰ P d all)
