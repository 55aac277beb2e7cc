-- ===== src/Reward/Slices.antt =====
-- CalcRewards and CalcRewardsInBatch on fresh accounts: what slices are granted.
use anytoken_distribution.Base.{
  ℕ, suc, zero, ◌≡◌, refl, ap, ◌∙◌, List, [], ◌∷◌, length, some, arith, ==_iff, ◌<◌, ◌≤◌, ◌+◌, All,
}
use anytoken_distribution.Int.{ℤ, pos, negsuc, ◌≤ℤ◌, ◌+ℤ◌, ◌*ℤ◌, sum, int_laws, *ℤ_parts}
use anytoken_distribution.Outcome.{returns}
use anytoken_distribution.Reward.Divide.{divide_rewards}
use anytoken_distribution.Reward.Exact.{divide_rewards_exact}
use anytoken_distribution.Reward.Fair.{AllFair, divide_rewards-AllFair}
use anytoken_distribution.Reward.Calc.{calc_rewards_lem}
use anytoken_distribution.Reward.Stats.{
  AccountStat, assign_rewards, calc_rewards, calc_each, calc_rewards_in_batch,
}
use anytoken_distribution.Reward.Rounding.{pos_of_le}
use anytoken_distribution.Reward.Fresh.{
  amount, granted, granted_all, IsFresh, IsFunded, granted-assign, granted_fresh, fresh_shares,
  one_le_mul,
}

-- The rewards of shares that are not negative are not negative.
part_nonneg :
    (total share reward : ℤ) (k : ℕ)
    → pos 0 ≤ℤ total *ℤ share
    → total *ℤ share +ℤ pos 1 ≤ℤ reward *ℤ pos k +ℤ pos k
    → pos 0 ≤ℤ reward
part_nonneg total share (pos n) k h le = omega arith
part_nonneg total share (negsuc n) k h le =
    absurd (omega (int_laws, *ℤ_parts (negsuc n) (pos k), λ (hk : 0 < k). one_le_mul n k hk))

AllFair-nonneg :
    (t k : ℕ) (shares rewards : List ℤ)
    → All (λ share. pos 0 ≤ℤ share) shares
    → AllFair (pos t) (pos k) shares rewards
    → All (λ r. pos 0 ≤ℤ r) rewards
AllFair-nonneg t k [] [] hs fair = tt
AllFair-nonneg t k [] (r ∷ rewards) hs fair = absurd fair
AllFair-nonneg t k (share ∷ shares) [] hs fair = absurd fair
AllFair-nonneg t k (negsuc n ∷ shares) (r ∷ rewards) hs fair = absurd (omega arith)
AllFair-nonneg t k (pos n ∷ shares) (r ∷ rewards) hs fair = (
  part_nonneg (pos t) (pos n) r k (omega (int_laws, *ℤ_parts (pos t) (pos n))) fair.0.0,
  AllFair-nonneg t k shares rewards hs.1 fair.1,
)

pub divide_rewards_nonneg :
    (t : ℕ) (shares : List ℤ)
    → All (λ share. pos 0 ≤ℤ share) shares
    → pos 1 ≤ℤ sum shares
    → All (λ r. pos 0 ≤ℤ r) (divide_rewards (pos t) shares)
divide_rewards_nonneg t shares hs positive =
    let (k, hk, e) = pos_of_le (sum shares) positive in
    let fair : AllFair (pos t) (pos k) shares (divide_rewards (pos t) shares) =
      rw e at (divide_rewards-AllFair (pos t) shares positive) in
    AllFair-nonneg t k shares _ hs fair

positive-nonneg :
    (shares : List ℤ) → All (λ share. pos 1 ≤ℤ share) shares → All (λ share. pos 0 ≤ℤ share) shares
positive-nonneg [] h = tt
positive-nonneg (share ∷ shares) (h, hs) = (omega arith, positive-nonneg shares hs)

pub divide_rewards-nonneg :
    (t : ℕ) (shares : List ℤ)
    → All (λ share. pos 1 ≤ℤ share) shares
    → pos 1 ≤ℤ sum shares
    → All (λ r. pos 0 ≤ℤ r) (divide_rewards (pos t) shares)
divide_rewards-nonneg t shares hs positive =
    divide_rewards_nonneg t shares (positive-nonneg shares hs) positive

-- No reward is negative.
abbrev pub IsSettled : AccountStat → Type 0
IsSettled stat = pos 0 ≤ℤ amount stat.reward

abbrev pub count_all : List (List AccountStat) → ℕ
count_all [] = 0
count_all (s ∷ stats) = length s + count_all stats

pub assign-IsSettled :
    (rewards : List ℤ) (s : List AccountStat)
    → length rewards ≡ length s
    → All (λ r. pos 0 ≤ℤ r) rewards
    → All IsSettled (assign_rewards rewards s)
unfolding assign_rewards
assign-IsSettled [] [] e nonneg = tt
assign-IsSettled [] (stat ∷ s) e nonneg = absurd (omega arith)
assign-IsSettled (r ∷ rewards) [] e nonneg = tt
assign-IsSettled (r ∷ rewards) (stat ∷ s) e (le, nonneg) =
    (le, assign-IsSettled rewards s (omega arith) nonneg)

pub length-assign :
    (rewards : List ℤ) (s : List AccountStat) → length (assign_rewards rewards s) ≡ length s
unfolding assign_rewards
length-assign [] [] = refl
length-assign [] (stat ∷ s) = refl
length-assign (r ∷ rewards) [] = refl
length-assign (r ∷ rewards) (stat ∷ s) = ap suc (length-assign rewards s)

fresh-IsSettled : (s : List AccountStat) → All IsFresh s → All IsSettled s
fresh-IsSettled [] h = tt
fresh-IsSettled (stat ∷ s) (h, hs) = (rw h.unpaid (omega arith), fresh-IsSettled s hs)

pub IsFunded→fresh : (s : List AccountStat) → IsFunded s → All IsFresh s × (1 ≤ length s)
IsFunded→fresh [] h = absurd h
IsFunded→fresh (stat ∷ s) h = (h, omega arith)

-- A funded slice gets what it is given.
pub calc_rewards-granted :
    (r : ℤ) (s : List AccountStat)
    → IsFunded s
    → pos 0 ≤ℤ r
    → (s' : List AccountStat) × (calc_rewards (some r) s ≡ returns s')
      × (granted s' ≡ r)
      × All IsSettled s'
      × (length s' ≡ length s)
calc_rewards-granted r [] h hr = absurd h
calc_rewards-granted (pos zero) (stat ∷ s) h hr = (
  stat ∷ s,
  unfold calc_rewards in refl,
  granted_fresh (stat ∷ s) h,
  fresh-IsSettled (stat ∷ s) h,
  refl,
)
calc_rewards-granted (pos (suc n)) (stat ∷ s) h hr =
    let (values, e, le, _, positive) = fresh_shares 1 (stat ∷ s) (omega arith) h in
    let (same, run) =
      calc_rewards_lem (pos (suc n)) stat s values (omega arith) (rw h.0.unpaid e) (omega arith) in
    let rewards = divide_rewards (pos (suc n)) values in
    (
      assign_rewards rewards (stat ∷ s),
      run,
      granted-assign _ (stat ∷ s) same
          ∙ (divide_rewards_exact (pos (suc n)) values (omega arith)).1,
      assign-IsSettled rewards (stat ∷ s) same
          (divide_rewards-nonneg (suc n) values positive (omega arith)),
      length-assign rewards (stat ∷ s),
    )
calc_rewards-granted (negsuc n) (stat ∷ s) h hr = absurd (omega arith)

pub calc_each-granted :
    (stats : List (List AccountStat)) (rewards : List ℤ)
    → All IsFunded stats
    → All (λ r. pos 0 ≤ℤ r) rewards
    → length stats ≡ length rewards
    → (stats' : List (List AccountStat)) × (calc_each stats rewards ≡ returns stats')
      × (granted_all stats' ≡ sum rewards)
      × All (All IsSettled) stats'
      × (length stats' ≡ length stats)
      × (count_all stats' ≡ count_all stats)
unfolding calc_each sum
calc_each-granted [] [] h hr e = ([], refl, refl, tt, refl, refl)
calc_each-granted [] (r ∷ rewards) h hr e = absurd (omega arith)
calc_each-granted (s ∷ stats) [] h hr e = absurd (omega arith)
calc_each-granted (s ∷ stats) (r ∷ rewards) h hr e =
    let (s', run, got, settled, long) = calc_rewards-granted r s h.0 hr.0 in
    let (stats', runs, gots, settleds, same, count) =
      calc_each-granted stats rewards h.1 hr.1 (omega arith) in
    (
      s' ∷ stats',
      rw (run, runs),
      rw (got, gots),
      (settled, settleds),
      ap suc same,
      omega (arith, long, count),
    )

pub in_batch :
    (stats : List (List AccountStat)) (rewards : List ℤ)
    → length stats ≡ length rewards
    → calc_rewards_in_batch stats rewards ≡ calc_each stats rewards
unfolding calc_rewards_in_batch calc_each
in_batch [] [] e = refl
in_batch (s ∷ stats) [] e = absurd (omega arith)
in_batch [] (r ∷ rewards) e = absurd (omega arith)
in_batch (s ∷ stats) (r ∷ rewards) e = rw ((==_iff _ _).1 e)
