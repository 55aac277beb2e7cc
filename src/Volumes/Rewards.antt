-- ===== src/Volumes/Rewards.antt =====
-- distributer/option.go, GetAccountsAndRewardsFromDB: the rewards of the accounts of an exchange, in
-- one cycle or in steps.
use anytoken_distribution.Base.{
  ℕ, ◌/◌, ◌%◌, ◌^◌, zero, suc, String, Option, none, some, List, [], ◌∷◌, ◌++◌, map, contains, Bool,
  true, false, not, ltb, ◌==◌, if◌then◌else◌, add64, sub64,
}
use anytoken_distribution.Int.{ℤ, pos, ◌+ℤ◌, ◌*ℤ◌, ◌/ℤ◌, is_nonpositive}
use anytoken_distribution.Outcome.{Outcome, returns, panics, deref, ◌>>=◌}
use anytoken_distribution.Library.{Library}
use anytoken_distribution.Reward.Stats.{AccountStat, calc_rewards}
use anytoken_distribution.Distribute.Stake.{StakeConfig, calc_add_percent_of_staking}
use anytoken_distribution.Distribute.NoVolumes.{NoVolumes, update_no_volumes}
use anytoken_distribution.Volumes.Find.{
  Excluding, VolumeDb, find_account_volumes, convert_to_sorted_slice,
}

-- The stake configuration, and what the node says an account has at stake, at the latest block or at
-- a block number.
pub record Staking : Type 0 where
  pub config : StakeConfig
  pub get_stake_amount : (account : ℕ) → Option ℕ → ℕ

-- The map of stakers has the addresses of the list as its keys.
unfoldable pub is_in_staker_list : Library → StakeConfig → (account : ℕ) → Bool
is_in_staker_list lib config account = contains account (map lib.hex_to_address config.stakers)

-- One round of weightedByStakeAmount; a share that is nil panics.
unfoldable pub weighted_stat : Library → Staking → Option ℕ → AccountStat → Outcome AccountStat
unfolding is_in_staker_list calc_add_percent_of_staking
weighted_stat lib staking block_number stat =
    let whole = staking.get_stake_amount stat.account block_number / 10 ^ 18 % 2 ^ 64 in
    let add_percent = calc_add_percent_of_staking staking.config whole in
    if not (is_in_staker_list lib staking.config stat.account)
    then returns stat
    else if add_percent == 0
    then returns stat
    else do
      share ← deref stat.share
      returns (record stat { share = some (share +ℤ share *ℤ pos add_percent /ℤ pos 100) })

unfoldable pub weighted_by_stake_amount :
    Library → Staking → Option ℕ → List AccountStat → Outcome (List AccountStat)
unfolding weighted_stat
weighted_by_stake_amount lib staking block_number [] = returns []
weighted_by_stake_amount lib staking block_number (stat ∷ stats) = do
  stat' ← weighted_stat lib staking block_number stat
  stats' ← weighted_by_stake_amount lib staking block_number stats
  returns (stat' ∷ stats')

-- What the functions read: the configuration, the database and two options.
pub record Source : Type 0 where
  pub ex : Excluding
  pub db : VolumeDb
  pub staking : Option Staking
  pub use_time_measurement : Bool
  pub archive_mode : Bool

abbrev pub weighted_if :
    Library → Option Staking → Option ℕ → List AccountStat → Outcome (List AccountStat)
weighted_if lib none block_number stats = returns stats
weighted_if lib (some staking) block_number stats =
    weighted_by_stake_amount lib staking block_number stats

-- What getSingleCycleRewardsFromDB does with the accounts that it found.
unfoldable pub rewarded :
    Source → Option ℤ → (end : ℕ) → List AccountStat → Outcome (List AccountStat)
unfolding weighted_by_stake_amount
rewarded src total end [] = returns []
rewarded src total end (stat ∷ stats) = do
  weighted ←
      weighted_if src.ex.lib src.staking (if src.archive_mode then some end else none)
        (stat ∷ stats)
  calc_rewards total weighted

unfoldable pub get_single_cycle_rewards_from_db :
    Source → Option ℤ → String → (start end : ℕ) → Outcome (List AccountStat)
unfolding rewarded
get_single_cycle_rewards_from_db src total exchange start end =
    rewarded src total end
      (find_account_volumes src.ex src.db exchange start end src.use_time_measurement)

-- The entry of the account in the map, of which no pointer may be nil.
unfoldable pub add_rewarded : AccountStat → List AccountStat → Outcome (List AccountStat)
add_rewarded stat [] = returns (stat ∷ [])
add_rewarded stat (fin ∷ fins) =
    let rest = add_rewarded stat fins in
    if not (fin.account == stat.account) then rest >>= (λ fins'. returns (fin ∷ fins')) else do
      fin_reward ← deref fin.reward
      reward ← deref stat.reward
      fin_share ← deref fin.share
      share ← deref stat.share
      returns (
          record fin {
            reward = some (fin_reward +ℤ reward);
            share = some (fin_share +ℤ share);
            number = add64 fin.number stat.number;
          }
          ∷ fins)

-- A reward that is nil or not positive is passed over.
abbrev pub is_rewarded : AccountStat → Bool
is_rewarded stat = elim stat.reward [
  | none ↦ false
  | some reward ↦ if is_nonpositive reward then false else true
]

abbrev pub add_if_rewarded : AccountStat → List AccountStat → Outcome (List AccountStat)
add_if_rewarded stat fins = if is_rewarded stat then add_rewarded stat fins else returns fins

-- The inner loop, over the accounts of a step.
unfoldable pub merge_stats : List AccountStat → List AccountStat → Outcome (List AccountStat)
unfolding add_rewarded
merge_stats [] fins = returns fins
merge_stats (stat ∷ stats) fins = do fins' ← add_if_rewarded stat fins; merge_stats stats fins'

-- A step without accounts is noted, and one with accounts is merged.
abbrev pub close_step :
    (start : ℕ) → List AccountStat → List AccountStat × List ℕ → Outcome (List AccountStat × List ℕ)
close_step start [] (fins, starts) = returns (fins, starts ++ start ∷ [])
close_step start (stat ∷ stats) (fins, starts) = do
  fins' ← merge_stats (stat ∷ stats) fins
  returns (fins', starts)

-- The loop over the steps; `none` is a loop that the fuel does not end.
unfoldable pub reward_steps :
    (fuel : ℕ)
    → Source
    → ℤ
    → String
    → (start end step : ℕ) → List AccountStat × List ℕ
    → Outcome (Option (List AccountStat × List ℕ))
unfolding get_single_cycle_rewards_from_db merge_stats
reward_steps zero src reward exchange start end step r = returns none
reward_steps (suc fuel) src reward exchange start end step r =
    if not (ltb start end) then returns (some r) else do
      stats ← get_single_cycle_rewards_from_db src (some reward) exchange start (add64 start step)
      r' ← close_step start stats r
      reward_steps fuel src reward exchange (add64 start step) end step r'

-- The result of the steps, with the option's record of steps without volumes.
abbrev pub conclude :
    Source → NoVolumes → Option (List AccountStat × List ℕ) → Option (List AccountStat × NoVolumes)
conclude src seen none = none
conclude src seen (some (fins, starts)) =
    some (convert_to_sorted_slice src.db.sort fins, update_no_volumes seen starts)

-- GetAccountsAndRewardsFromDB; a division by zero panics.
unfoldable pub get_accounts_and_rewards_from_db :
    (fuel : ℕ)
    → Source
    → (total : ℤ) → String
    → (start end step : ℕ) → NoVolumes
    → Outcome (Option (List AccountStat × NoVolumes))
unfolding reward_steps
get_accounts_and_rewards_from_db fuel src total exchange start end zero seen = do
  stats ← get_single_cycle_rewards_from_db src (some total) exchange start end
  returns (some (stats, seen))
get_accounts_and_rewards_from_db fuel src total exchange start end (suc step) seen =
    let steps = sub64 end start / suc step in
    let reward = total /ℤ pos steps in
    if steps == 0 then panics else do
      r ← reward_steps fuel src reward exchange start end (suc step) ([], [])
      returns (conclude src seen r)
