-- ===== src/Base/Members.antt =====
-- Members of a list of numbers, by a Boolean test, and how many distinct ones fit in a range.
use Prim.Native.Nat.{ℕ, zero, suc, ◌+◌, ◌≤◌, ◌<◌}
use mathlib.Core.Path.{◌≡◌, refl, ap}
use mathlib.Core.Logic.{inl, inr}
use mathlib.Core.Bool.{Bool, true, false, ◌||◌}
use mathlib.Core.List.{List, [], ◌∷◌, ◌++◌}
use native.Mathlib.Omega.{arith}
use anytoken_distribution.Base.Tests.{◌==◌, if◌then◌else◌, Bool-cases, ==_iff}
use anytoken_distribution.Base.Lists.{length, All}

abbrev pub contains : ℕ → List ℕ → Bool
contains h [] = false
contains h (x ∷ xs) = h == x || contains h xs

or_assoc : (a b c : Bool) → (a || (b || c)) ≡ ((a || b) || c)
or_assoc true b c = refl
or_assoc false b c = refl

pub contains-append : (h : ℕ) (a b : List ℕ) → contains h (a ++ b) ≡ (contains h a || contains h b)
contains-append h [] b = refl
contains-append h (x ∷ a) b =
    rw (contains-append h a b) (or_assoc (h == x) (contains h a) (contains h b))

pub or_false : (a b : Bool) → (a || b) ≡ false → (a ≡ false) × (b ≡ false)
or_false false b h = (refl, h)
or_false true b h = cc

abbrev pub Distinct : List ℕ → Type 0
Distinct [] = Unit
Distinct (x ∷ xs) = (contains x xs ≡ false) × Distinct xs

-- From `a`, and `n` numbers on.
abbrev pub InRange : ℕ → ℕ → ℕ → Type 0
InRange a n x = (a ≤ x) × (x < a + n)

unfoldable delete : ℕ → List ℕ → List ℕ
delete h [] = []
delete h (x ∷ xs) = let rest = delete h xs in if h == x then rest else x ∷ rest

delete-absent : (h : ℕ) (xs : List ℕ) → contains h xs ≡ false → delete h xs ≡ xs
unfolding delete
delete-absent h [] e = refl
delete-absent h (x ∷ xs) e =
    let (other, absent) = or_false (h == x) (contains h xs) e in
    rw other (ap (λ rest. x ∷ rest) (delete-absent h xs absent))

length-delete : (h : ℕ) (xs : List ℕ) → Distinct xs → length xs ≤ suc (length (delete h xs))
unfolding delete
length-delete h [] d = omega arith
length-delete h (x ∷ xs) (fresh, d) = elim (Bool-cases (h == x)) [
  | inl e ↦
      let same : h ≡ x = (==_iff h x).0 e in
      let whole = delete-absent h xs (rw same fresh) in rw (e, whole) (omega arith)
  | inr e ↦ rw e (omega (arith, length-delete h xs d))
]

contains-delete : (x h : ℕ) (xs : List ℕ) → contains x xs ≡ false → contains x (delete h xs) ≡ false
unfolding delete
contains-delete x h [] e = refl
contains-delete x h (y ∷ xs) e =
    let (other, absent) = or_false (x == y) (contains x xs) e in
    let rest = contains-delete x h xs absent in
    elim (Bool-cases (h == y)) [ inl c ↦ rw c rest | inr c ↦ rw (c, other) rest ]

Distinct-delete : (h : ℕ) (xs : List ℕ) → Distinct xs → Distinct (delete h xs)
unfolding delete
Distinct-delete h [] d = tt
Distinct-delete h (x ∷ xs) (fresh, d) = elim (Bool-cases (h == x)) [
  | inl c ↦ rw c (Distinct-delete h xs d)
  | inr c ↦ rw c (contains-delete x h xs fresh, Distinct-delete h xs d)
]

before_last : (a n x : ℕ) → (a + n == x) ≡ false → InRange a (suc n) x → InRange a n x
before_last a n x e (from, to) = ground arith

All-delete :
    (a n : ℕ) (xs : List ℕ) → All (InRange a (suc n)) xs → All (InRange a n) (delete (a + n) xs)
unfolding delete
All-delete a n [] all = tt
All-delete a n (x ∷ xs) (here, all) = elim (Bool-cases (a + n == x)) [
  | inl c ↦ rw c (All-delete a n xs all)
  | inr c ↦ rw c (before_last a n x c here, All-delete a n xs all)
]

-- No more than `n` distinct numbers fit in a range of `n`.
Distinct-length : (a n : ℕ) (xs : List ℕ) → Distinct xs → All (InRange a n) xs → length xs ≤ n
Distinct-length a zero [] d all = omega arith
Distinct-length a zero (x ∷ xs) d (here, all) = absurd (omega (arith, here.0, here.1))
Distinct-length a (suc n) xs d all = omega (
  arith,
  length-delete (a + n) xs d,
  Distinct-length a n (delete (a + n) xs) (Distinct-delete (a + n) xs d) (All-delete a n xs all),
)

-- As many distinct numbers as the range has are all of it.
pub contains_all :
    (a n : ℕ) (xs : List ℕ)
    → Distinct xs
    → All (InRange a n) xs
    → n ≤ length xs
    → (h : ℕ) → InRange a n h
    → contains h xs ≡ true
contains_all a n xs d all enough h here = elim (Bool-cases (contains h xs)) [
  | inl found ↦ found
  | inr absent ↦ absurd (omega (arith, Distinct-length a n (h ∷ xs) (absent, d) (here, all)))
]

-- The numbers rise, from `a` on and below `b`.
abbrev pub Ascending : (a b : ℕ) → List ℕ → Type 0
Ascending a b [] = Unit
Ascending a b (x ∷ xs) = (a ≤ x) × (x < b) × Ascending (x + 1) b xs

pub Ascending-mono : (a a' b : ℕ) (xs : List ℕ) → a' ≤ a → Ascending a b xs → Ascending a' b xs
Ascending-mono a a' b [] le up = tt
Ascending-mono a a' b (x ∷ xs) le (from, to, up) = (omega arith, to, up)

pub Ascending-append :
    (a b c : ℕ) (xs ys : List ℕ)
    → a ≤ b
    → b ≤ c
    → Ascending a b xs
    → Ascending b c ys
    → Ascending a c (xs ++ ys)
Ascending-append a b c [] ys ab bc up up' = Ascending-mono b a c ys ab up'
Ascending-append a b c (x ∷ xs) ys ab bc (from, to, up) up' =
    (from, omega arith, Ascending-append (x + 1) b c xs ys (omega arith) bc up up')

pub Ascending-weaken : (a b b' : ℕ) (xs : List ℕ) → b ≤ b' → Ascending a b xs → Ascending a b' xs
Ascending-weaken a b b' [] le up = tt
Ascending-weaken a b b' (x ∷ xs) le (from, to, up) =
    (from, omega arith, Ascending-weaken (x + 1) b b' xs le up)
