-- ===== src/Reward/Fresh.antt =====
-- Statistics as the readers of volumes and balances leave them: a positive share, no reward yet.
use anytoken_distribution.Base.{
  ℕ, suc, ◌≡◌, refl, ap, List, [], ◌∷◌, map, length, Option, some, none, arith, ◌<◌, ◌≤◌, ◌*◌, All,
}
use anytoken_distribution.Int.{ℤ, pos, ◌≤ℤ◌, ◌+ℤ◌, ◌*ℤ◌, sum, int_laws, *ℤ_parts}
use anytoken_distribution.Outcome.{returns, deref_all}
use anytoken_distribution.Reward.Stats.{AccountStat, shares_of, assign_rewards}

abbrev pub amount : Option ℤ → ℤ
amount none = pos 0
amount (some r) = r

-- All that the accounts of a slice, and of several slices, get; a nil reward is nothing.
abbrev pub granted : List AccountStat → ℤ
granted [] = pos 0
granted (stat ∷ s) = amount stat.reward +ℤ granted s

abbrev pub granted_all : List (List AccountStat) → ℤ
granted_all [] = pos 0
granted_all (s ∷ stats) = granted s +ℤ granted_all stats

-- A statistic with a positive share that has no reward yet.
pub record IsFresh (stat : AccountStat) : Type 0 where
  pub units : ℕ
  pub shared : stat.share ≡ some (pos (suc units))
  pub unpaid : stat.reward ≡ none

-- A slice that somebody has a share in.
abbrev pub IsFunded : List AccountStat → Type 0
IsFunded [] = ⊥
IsFunded (stat ∷ s) = IsFresh stat × All IsFresh s

pub granted-assign :
    (rewards : List ℤ) (s : List AccountStat)
    → length rewards ≡ length s
    → granted (assign_rewards rewards s) ≡ sum rewards
unfolding assign_rewards sum
granted-assign [] [] e = refl
granted-assign [] (stat ∷ s) e = ground arith
granted-assign (r ∷ rewards) [] e = ground arith
granted-assign (r ∷ rewards) (stat ∷ s) e =
    ap (λ rest. r +ℤ rest) (granted-assign rewards s (omega arith))

pub granted_fresh : (s : List AccountStat) → All IsFresh s → granted s ≡ pos 0
unfolding ◌+ℤ◌
granted_fresh [] h = refl
granted_fresh (stat ∷ s) h = rw (h.0.unpaid, granted_fresh s h.1)

pub one_le_mul : (u w : ℕ) → 0 < w → 1 ≤ suc u * w
one_le_mul u w h = grind arith

-- The shares of fresh statistics, and their sum at a weight.
pub fresh_shares :
    (weight : ℕ) (s : List AccountStat)
    → 0 < weight
    → All IsFresh s
    → (values : List ℤ) × (deref_all (shares_of s) ≡ returns values)
      × (pos (length s) ≤ℤ sum values)
      × (pos (length s) ≤ℤ sum (map (λ share. share *ℤ pos weight) values))
      × All (λ share. pos 1 ≤ℤ share) values
unfolding deref_all sum
fresh_shares weight [] hw h = ([], refl, omega arith, omega arith, tt)
fresh_shares weight (stat ∷ s) hw (h, hs) =
    let (values, e, le, le', positive) = fresh_shares weight s hw hs in
    let units = h.units in
    (
      pos (suc units) ∷ values,
      rw (h.shared, e),
      omega int_laws,
      omega (int_laws, *ℤ_parts (pos (suc units)) (pos weight), one_le_mul units weight hw),
      (omega arith, positive),
    )
