-- ===== src/Driver/Granted.antt =====
-- CalcRewardsInBatch over accounts that have rewards already, as ByVolume calls it.
use anytoken_distribution.Base.{
  ℕ, suc, zero, ◌≡◌, refl, ap, ◌∙◌, List, [], ◌∷◌, length, Option, none, some, arith, All,
  if◌then◌else◌, gt→leb,
}
use anytoken_distribution.Int.{ℤ, pos, negsuc, ◌≤ℤ◌, ◌+ℤ◌, is_nonpositive, sum, int_laws}
use anytoken_distribution.Outcome.{returns, deref_all}
use anytoken_distribution.Reward.Divide.{divide_rewards}
use anytoken_distribution.Reward.Exact.{divide_rewards_exact}
use anytoken_distribution.Reward.Calc.{calc_rewards_lem}
use anytoken_distribution.Reward.Slices.{
  IsSettled, count_all, divide_rewards_nonneg, assign-IsSettled, length-assign, in_batch,
}
use anytoken_distribution.Reward.Stats.{
  AccountStat, basis, rewards_of, assign_rewards, calc_rewards, calc_each, calc_rewards_in_batch,
}
use anytoken_distribution.Reward.Fresh.{amount, granted, granted_all, granted-assign}
use anytoken_distribution.Driver.Dispatched.{payable_total}
use anytoken_distribution.Distribute.Send.{payable}
use anytoken_distribution.Distribute.Nonces.{payable_value, payable_sum}

-- An account with a reward that is not negative.
pub record IsRated (stat : AccountStat) : Type 0 where
  pub units : ℕ
  pub rated : stat.reward ≡ some (pos units)

-- A slice that has been given rewards.
abbrev pub IsEndowed : List AccountStat → Type 0
IsEndowed s = All IsRated s × (pos 1 ≤ℤ granted s)

-- What slices keep of their earlier rewards: those that are given nothing.
abbrev pub kept : List (List AccountStat) → List ℤ → ℤ
kept [] rewards = pos 0
kept (s ∷ stats) [] = pos 0
kept (s ∷ stats) (r ∷ rewards) =
    (if is_nonpositive r then granted s else pos 0) +ℤ kept stats rewards

rated_values :
    (s : List AccountStat)
    → All IsRated s
    → (values : List ℤ) × (deref_all (rewards_of s) ≡ returns values)
      × (sum values ≡ granted s)
      × All (λ v. pos 0 ≤ℤ v) values
unfolding deref_all sum
rated_values [] h = ([], refl, refl, tt)
rated_values (stat ∷ s) (h, hs) =
    let (values, e, same, nonneg) = rated_values s hs in
    (pos h.units ∷ values, rw (h.rated, e), rw (h.rated, same), (omega arith, nonneg))

rated-IsSettled : (s : List AccountStat) → All IsRated s → All IsSettled s
rated-IsSettled [] h = tt
rated-IsSettled (stat ∷ s) (h, hs) = (rw h.rated (omega arith), rated-IsSettled s hs)

rated_basis :
    (stat : AccountStat) (s : List AccountStat) {r : ℤ}
    → stat.reward ≡ some r
    → basis stat s ≡ rewards_of s
rated_basis stat s h = rw h refl

-- What CalcRewards does to a slice that has rewards.
calc_rewards-regranted :
    (r : ℤ) (s : List AccountStat)
    → IsEndowed s
    → pos 0 ≤ℤ r
    → (s' : List AccountStat) × (calc_rewards (some r) s ≡ returns s')
      × (granted s' ≡ r +ℤ (if is_nonpositive r then granted s else pos 0))
      × All IsSettled s'
      × (length s' ≡ length s)
calc_rewards-regranted r [] (all, some_reward) hr = absurd (omega arith)
calc_rewards-regranted (pos zero) (stat ∷ s) (all, some_reward) hr =
    (stat ∷ s, unfold calc_rewards in refl, omega int_laws, rated-IsSettled (stat ∷ s) all, refl)
calc_rewards-regranted (pos (suc n)) (stat ∷ s) (all, some_reward) hr =
    let (values, e, same_sum, nonneg) = rated_values (stat ∷ s) all in
    let positive : pos 1 ≤ℤ sum values = rw same_sum some_reward in
    let (same, run) =
      calc_rewards_lem (pos (suc n)) stat s values (omega arith)
        (ap deref_all (rated_basis stat (stat ∷ s) all.0.rated) ∙ e) positive in
    let rewards = divide_rewards (pos (suc n)) values in
    (
      assign_rewards rewards (stat ∷ s),
      run,
      rw (gt→leb (suc n) 0 (omega arith)) (
          granted-assign rewards (stat ∷ s) same
          ∙ (divide_rewards_exact (pos (suc n)) values positive).1
          ∙ omega int_laws),
      assign-IsSettled rewards (stat ∷ s) same
          (divide_rewards_nonneg (suc n) values nonneg positive),
      length-assign rewards (stat ∷ s),
    )
calc_rewards-regranted (negsuc n) (stat ∷ s) h hr = absurd (omega arith)

calc_each-regranted :
    (stats : List (List AccountStat)) (rewards : List ℤ)
    → All IsEndowed stats
    → All (λ r. pos 0 ≤ℤ r) rewards
    → length stats ≡ length rewards
    → (stats' : List (List AccountStat)) × (calc_each stats rewards ≡ returns stats')
      × (granted_all stats' ≡ sum rewards +ℤ kept stats rewards)
      × All (All IsSettled) stats'
      × (length stats' ≡ length stats)
      × (count_all stats' ≡ count_all stats)
unfolding calc_each sum
calc_each-regranted [] [] h hr e = ([], refl, omega int_laws, tt, refl, refl)
calc_each-regranted [] (r ∷ rewards) h hr e = absurd (omega arith)
calc_each-regranted (s ∷ stats) [] h hr e = absurd (omega arith)
calc_each-regranted (s ∷ stats) (r ∷ rewards) h hr e =
    let (s', run, got, rated, long) = calc_rewards-regranted r s h.0 hr.0 in
    let (stats', runs, gots, rateds, same, count) =
      calc_each-regranted stats rewards h.1 hr.1 (omega arith) in
    (
      s' ∷ stats',
      rw (run, runs) refl,
      rw (got, gots) (omega int_laws),
      (rated, rateds),
      ap suc same,
      omega (arith, long, count),
    )

-- CalcRewardsInBatch, over slices of accounts with rewards that are not negative and have a positive
-- sum, and a reward for each slice that is not negative: it returns, and what the accounts then have
-- is the sum of the rewards, and what the slices that are given nothing had before.
pub calc_rewards_in_batch-regranted :
    (stats : List (List AccountStat)) (rewards : List ℤ)
    → All IsEndowed stats
    → All (λ r. pos 0 ≤ℤ r) rewards
    → length stats ≡ length rewards
    → (stats' : List (List AccountStat)) × (calc_rewards_in_batch stats rewards ≡ returns stats')
      × (granted_all stats' ≡ sum rewards +ℤ kept stats rewards)
      × All (All IsSettled) stats'
      × (length stats' ≡ length stats)
      × (count_all stats' ≡ count_all stats)
calc_rewards_in_batch-regranted stats rewards h hr e =
    let (stats', run, got, rated, same, count) = calc_each-regranted stats rewards h hr e in
    (stats', in_batch stats rewards e ∙ run, got, rated, same, count)

payable_settled :
    (reward : Option ℤ)
    → pos 0 ≤ℤ amount reward
    → payable_value
        (elim reward [ none ↦ none | some r ↦ if is_nonpositive r then none else some r ])
      ≡ amount reward
payable_settled none h = refl
payable_settled (some (pos zero)) h = refl
payable_settled (some (pos (suc n))) h = rw (gt→leb (suc n) 0 (omega arith)) refl
payable_settled (some (negsuc n)) h = absurd (omega arith)

-- Where no reward is negative, all rewards are paid.
pub payable_sum-granted : (s : List AccountStat) → All IsSettled s → payable_sum s ≡ granted s
unfolding payable
payable_sum-granted [] h = refl
payable_sum-granted (stat ∷ s) (h, hs) =
    rw (payable_settled stat.reward h, payable_sum-granted s hs) refl

pub payable_total-granted :
    (stats : List (List AccountStat))
    → All (All IsSettled) stats
    → payable_total stats ≡ granted_all stats
payable_total-granted [] h = refl
payable_total-granted (s ∷ stats) (h, hs) =
    rw (payable_sum-granted s h, payable_total-granted stats hs) refl
