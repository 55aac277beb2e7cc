-- ===== src/Volumes/Paid.antt =====
-- The rewards of one step: stakes leave shares positive, CalcRewards pays every account, and the map
-- of all steps takes the rewards over.
use anytoken_distribution.Base.{
  ℕ, suc, ◌+◌, ◌*◌, ◌/◌, ◌%◌, ◌^◌, ◌<◌, ◌≡◌, ap, ◌∙◌, refl, Option, some, List, [], ◌∷◌, All,
  length, ◌==◌, arith, Bool-cases, inl, inr,
}
use anytoken_distribution.Int.{ℤ, pos, negsuc, ◌+ℤ◌, ◌*ℤ◌, ◌/ℤ◌, ◌≤ℤ◌, *ℤ_parts, int_laws}
use anytoken_distribution.Outcome.{returns}
use anytoken_distribution.Library.{Library}
use anytoken_distribution.Reward.Stats.{AccountStat, calc_rewards, assign_rewards}
use anytoken_distribution.Reward.Divide.{divide_rewards}
use anytoken_distribution.Reward.Exact.{divide_rewards_exact}
use anytoken_distribution.Reward.Calc.{calc_rewards_lem}
use anytoken_distribution.Reward.Fresh.{IsFresh, granted, granted-assign, fresh_shares}
use anytoken_distribution.Reward.Slices.{divide_rewards-nonneg, length-assign}
use anytoken_distribution.Distribute.Stake.{calc_add_percent_of_staking}
use anytoken_distribution.Volumes.Rewards.{
  Staking, is_in_staker_list, weighted_stat, weighted_by_stake_amount,
}

-- A statistic with a positive share and a reward.
pub record IsPaid (stat : AccountStat) : Type 0 where
  pub units : ℕ
  pub shared : stat.share ≡ some (pos (suc units))
  pub units_paid : ℕ
  pub paid : stat.reward ≡ some (pos units_paid)

grown_share :
    (units percent : ℕ)
    → pos (suc units) +ℤ pos (suc units) *ℤ pos percent /ℤ pos 100
      ≡ pos (suc (units + suc units * percent / 100))
unfolding ◌/ℤ◌
grown_share units percent =
    let product : pos (suc units) *ℤ pos percent ≡ pos (suc units * percent) =
      omega (int_laws, *ℤ_parts (pos (suc units)) (pos percent)) in
    rw product (omega int_laws)

weighted_stat-IsFresh :
    (lib : Library) (staking : Staking) (block_number : Option ℕ) (stat : AccountStat)
    → IsFresh stat
    → (stat' : AccountStat) × (weighted_stat lib staking block_number stat ≡ returns stat')
      × IsFresh stat'
unfolding weighted_stat
weighted_stat-IsFresh lib staking block_number stat fresh =
    let whole = staking.get_stake_amount stat.account block_number / 10 ^ 18 % 2 ^ 64 in
    let add_percent = calc_add_percent_of_staking staking.config whole in
    elim (Bool-cases (is_in_staker_list lib staking.config stat.account)) [
      | inr e ↦ (stat, rw e refl, fresh)
      | inl e ↦ elim (Bool-cases (add_percent == 0)) [
        | inl z ↦ (stat, rw (e, z) refl, fresh)
        | inr z ↦ (
          record stat {
            share = some (pos (suc (fresh.units + suc fresh.units * add_percent / 100)));
          },
          rw (e, z, fresh.shared, grown_share fresh.units add_percent) refl,
          record {
            units = fresh.units + suc fresh.units * add_percent / 100;
            shared = refl;
            unpaid = fresh.unpaid;
          },
        )
      ]
    ]

pub weighted_by_stake_amount-IsFresh :
    (lib : Library) (staking : Staking) (block_number : Option ℕ) (stats : List AccountStat)
    → All IsFresh stats
    → (stats' : List AccountStat) × (weighted_by_stake_amount lib staking block_number stats
        ≡ returns stats')
      × All IsFresh stats'
      × (length stats' ≡ length stats)
unfolding weighted_by_stake_amount
weighted_by_stake_amount-IsFresh lib staking block_number [] all = ([], refl, tt, refl)
weighted_by_stake_amount-IsFresh lib staking block_number (stat ∷ stats) (here, all) =
    let (stat', run, fresh) = weighted_stat-IsFresh lib staking block_number stat here in
    let (stats', runs, freshs, same) =
      weighted_by_stake_amount-IsFresh lib staking block_number stats all in
    (stat' ∷ stats', rw (run, runs) refl, (fresh, freshs), ap suc same)

assign-IsPaid :
    (rewards : List ℤ) (s : List AccountStat)
    → length rewards ≡ length s
    → All (λ r. pos 0 ≤ℤ r) rewards
    → All IsFresh s
    → All IsPaid (assign_rewards rewards s)
unfolding assign_rewards
assign-IsPaid [] [] e nonneg all = tt
assign-IsPaid [] (stat ∷ s) e nonneg all = ground arith
assign-IsPaid (r ∷ rewards) [] e nonneg all = ground arith
assign-IsPaid (pos n ∷ rewards) (stat ∷ s) e (le, nonneg) (here, all) = (
  record { units = here.units; shared = here.shared; units_paid = n; paid = refl },
  assign-IsPaid rewards s (omega arith) nonneg all,
)
assign-IsPaid (negsuc n ∷ rewards) (stat ∷ s) e (le, nonneg) (here, all) = absurd (omega arith)

-- CalcRewards of a positive total over fresh accounts pays each of them, and the total in all.
pub calc_rewards-AllPaid :
    (n : ℕ) (s : List AccountStat)
    → All IsFresh s
    → 0 < length s
    → (s' : List AccountStat) × (calc_rewards (some (pos (suc n))) s ≡ returns s')
      × (granted s' ≡ pos (suc n))
      × All IsPaid s'
      × (length s' ≡ length s)
calc_rewards-AllPaid n [] all some_account = absurd (omega arith)
calc_rewards-AllPaid n (stat ∷ s) all some_account =
    let (values, e, le, _, positive) = fresh_shares 1 (stat ∷ s) (omega arith) all in
    let (same, run) =
      calc_rewards_lem (pos (suc n)) stat s values (omega arith) (rw all.0.unpaid e)
        (omega arith) in
    let rewards = divide_rewards (pos (suc n)) values in
    (
      assign_rewards rewards (stat ∷ s),
      run,
      granted-assign rewards (stat ∷ s) same
          ∙ (divide_rewards_exact (pos (suc n)) values (omega arith)).1,
      assign-IsPaid rewards (stat ∷ s) same
          (divide_rewards-nonneg (suc n) values positive (omega arith)) all,
      length-assign rewards (stat ∷ s),
    )
