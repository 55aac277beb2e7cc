-- ===== src/Outcome.antt =====
-- How a Go function ends: it returns a value, or a run-time panic (a nil pointer, an index out of
-- range, a division by zero) ends the program. An `error` result is part of the value.
use anytoken_distribution.Base.{
  suc, Option, none, some, List, [], ◌∷◌, ◌≡◌, refl, sym, ap, ◌∙◌, map, length,
}

pub data Outcome {ℓ} (A : Type ℓ) : Type ℓ where
  returns : A → Outcome A
  panics : Outcome A

infixl 5 ◌>>=◌
abbrev pub ◌>>=◌ {ℓ κ} : {A : Type ℓ} {B : Type κ} → Outcome A → (A → Outcome B) → Outcome B
returns a >>= f = f a
panics >>= f = panics

-- The value behind a pointer, where the code dereferences it.
abbrev pub deref {ℓ} : {A : Type ℓ} → Option A → Outcome A
deref none = panics
deref (some a) = returns a

-- Every pointer of a slice is dereferenced.
unfoldable pub deref_all {ℓ} : {A : Type ℓ} → List (Option A) → Outcome (List A)
deref_all [] = returns []
deref_all (p ∷ ps) = do a ← deref p; rest ← deref_all ps; returns (a ∷ rest)

-- A bind that returns has a first part that returns.
pub >>=-eq-returns {ℓ κ} :
    {A : Type ℓ} {B : Type κ} (m : Outcome A) (f : A → Outcome B) {b : B}
    → (m >>= f) ≡ returns b
    → (a : A) × (m ≡ returns a) × (f a ≡ returns b)
>>=-eq-returns (returns a) f h = (a, refl, h)
>>=-eq-returns panics f h = cc

abbrev value_or {ℓ} : {A : Type ℓ} → A → Outcome A → A
value_or a (returns b) = b
value_or a panics = a

pub returns-injective {ℓ} : {A : Type ℓ} {a b : A} → returns a ≡ returns b → a ≡ b
returns-injective {a} e = ap (value_or a) e

pub length-deref_all {ℓ} :
    {A : Type ℓ} (ps : List (Option A)) {xs : List A}
    → deref_all ps ≡ returns xs
    → length xs ≡ length ps
unfolding deref_all
length-deref_all [] e = ap length (sym (returns-injective e))
length-deref_all (none ∷ ps) e = cc
length-deref_all (some a ∷ ps) e =
    let (rest, tail, whole) = >>=-eq-returns (deref_all ps) _ e in
    ap length (sym (returns-injective whole)) ∙ ap suc (length-deref_all ps tail)

pub deref_all-some {ℓ} : {A : Type ℓ} (xs : List A) → deref_all (map some xs) ≡ returns xs
unfolding deref_all
deref_all-some [] = refl
deref_all-some (x ∷ xs) = rw (deref_all-some xs)
