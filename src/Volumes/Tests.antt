-- ===== src/Volumes/Tests.antt =====
-- FindAccountVolumes at a few records.
use mathlib.Core.List.Permᴰ
use anytoken_distribution.Base.{ℕ, ◌≡◌, refl, some, none, List, [], ◌∷◌, All, false}
use anytoken_distribution.Int.{pos, ◌+ℤ◌}
use anytoken_distribution.Library.Sample.{sample}
use anytoken_distribution.Config.Lookups.{
  is_excluded_reward_account, is_configed_exchange, get_exchange_pairs, is_in_all_exchanges,
}
use anytoken_distribution.Reward.Fresh.{IsFresh}
use anytoken_distribution.Receipts.Records.{MgoVolumeHistory}
use anytoken_distribution.Volumes.Rearranged.{keep}
use anytoken_distribution.Volumes.Find.{
  Excluding, VolumeDb, volume_query, counted_volume, add_volume, collect_volumes, with_shares,
  convert_to_sorted_slice, find_account_volumes,
}
use anytoken_distribution.Volumes.Collect.{share_in, AreSingle}
use anytoken_distribution.Base.{length, ◌*◌, ◌/◌, ◌^◌, arith, true}
use anytoken_distribution.Int.{◌-ℤ◌, ◌*ℤ◌, ◌/ℤ◌, sum}
use anytoken_distribution.Outcome.{returns, deref_all}
use anytoken_distribution.Reward.Stats.{AccountStat, calc_rewards, assign_rewards}
use anytoken_distribution.Reward.Fresh.{granted}
use anytoken_distribution.Reward.Divide.{divide_rewards, proportions, spread, share_left}
use anytoken_distribution.Distribute.Stake.{calc_add_percent_of_staking, last_point}
use anytoken_distribution.Distribute.NoVolumes.{
  update_no_volumes, intersection, same_heights, nothing_seen,
}
use anytoken_distribution.Volumes.Rewards.{
  Staking, Source, is_in_staker_list, weighted_stat, weighted_by_stake_amount, rewarded,
  get_single_cycle_rewards_from_db, add_rewarded, merge_stats, reward_steps,
  get_accounts_and_rewards_from_db,
}
use anytoken_distribution.Volumes.Paid.{IsPaid}
use anytoken_distribution.Volumes.Steps.{missed_steps}
use anytoken_distribution.Volumes.Granted.{get_accounts_and_rewards_from_db-granted}
use anytoken_distribution.Volumes.Found.{Stores, volume_in, find_account_volumes-total}

abbrev traded : MgoVolumeHistory
traded = record {
  exchange = "0xe";
  pairs = "ANY";
  account = "0x1";
  coin_amount = "7";
  token_amount = "7";
  block_number = 100;
  timestamp = 9000;
  tx_hash = "0xa";
  log_type = "TokenPurchase";
  log_index = 1;
}

-- Two trades of an account, one outside of the range, one of nothing and one of another account.
abbrev stored : List MgoVolumeHistory
stored =
    traded
    ∷ record traded { block_number = 200 }
    ∷ record traded { coin_amount = "0" }
    ∷ record traded { account = "0x2" }
    ∷ traded
    ∷ []

abbrev db : VolumeDb
db = record { find = λ query. keep query stored; sort = λ stats. stats }

abbrev excluding : Excluding
excluding = record {
  lib = sample;
  exchanges = [];
  all = record { all_tokens = []; all_exchanges = [] };
}

find-stored :
    find_account_volumes excluding db "0xe" 50 150 false
    ≡ record { account = 1; reward = none; share = some (pos 14); number = 2 }
      ∷ record { account = 2; reward = none; share = some (pos 7); number = 1 }
      ∷ []
unfolding find_account_volumes volume_query counted_volume add_volume collect_volumes with_shares
    convert_to_sorted_slice is_excluded_reward_account is_configed_exchange get_exchange_pairs
    is_in_all_exchanges ◌+ℤ◌
find-stored = refl

db-Stores : Stores stored db
db-Stores = record {
  finds = λ query. Permᴰ.refl (keep query stored);
  sorts = λ stats. Permᴰ.refl stats;
}

find_account_volumes-total_example :
    let stats = find_account_volumes excluding db "0xe" 50 150 false in
    All IsFresh stats
    × AreSingle stats
    × ((a : ℕ) → share_in a stats ≡ volume_in excluding stored "0xe" 50 150 false a)
find_account_volumes-total_example =
    find_account_volumes-total excluding db stored "0xe" 50 150 false (record {
      finds = λ query. Permᴰ.refl (keep query stored);
      sorts = λ stats. Permᴰ.refl stats;
    })

-- The staker of account 1 has 6000 units at stake.
abbrev staking : Staking
staking = record {
  config = record {
    contract = "0xc";
    stakers = "0x1" ∷ [];
    points = 5000 ∷ [];
    percents = 10 ∷ [];
  };
  get_stake_amount = λ account block_number. 6000 * 10 ^ 18;
}

abbrev source : Source
source = record {
  ex = excluding;
  db = db;
  staking = some staking;
  use_time_measurement = false;
  archive_mode = true;
}

get_accounts_and_rewards_from_db-granted_example :
    let missed = missed_steps source "0xe" 0 100 4 in
    (stats : List AccountStat) × (get_accounts_and_rewards_from_db 9 source
        (pos 1000)
        "0xe"
        0
        400
        100
        nothing_seen
      ≡ returns (some (stats, update_no_volumes nothing_seen missed)))
    × All IsPaid stats
    × AreSingle stats
    × (granted stats +ℤ pos (length missed * (1000 / 4)) ≡ pos (4 * (1000 / 4)))
get_accounts_and_rewards_from_db-granted_example =
    get_accounts_and_rewards_from_db-granted 9 source stored 1000 "0xe" 0 400 99 4 nothing_seen
      db-Stores (omega arith) refl (omega arith) (omega arith) (omega arith)

-- Volumes are in the second and the third step only, and the stake of 6000 gives the account 1 a
-- weight of 51 to 1, not of 1.1 to 1.
run-steps :
    get_accounts_and_rewards_from_db 9 source (pos 1000) "0xe" 0 400 100 nothing_seen
    ≡ returns (
        some (
          record { account = 1; reward = some (pos 498); share = some (pos 1071); number = 3 }
              ∷ record { account = 2; reward = some (pos 2); share = some (pos 7); number = 1 }
              ∷ [],
          record { has_no_missing_volumes = false; no_volume_start_heights = 0 ∷ 300 ∷ [] },
        ))
unfolding get_accounts_and_rewards_from_db reward_steps get_single_cycle_rewards_from_db rewarded
    weighted_by_stake_amount weighted_stat is_in_staker_list merge_stats add_rewarded
    find_account_volumes volume_query counted_volume add_volume collect_volumes with_shares
    convert_to_sorted_slice is_excluded_reward_account is_configed_exchange get_exchange_pairs
    is_in_all_exchanges ◌+ℤ◌ ◌-ℤ◌ ◌*ℤ◌ ◌/ℤ◌ calc_rewards divide_rewards proportions spread
    share_left sum deref_all assign_rewards calc_add_percent_of_staking last_point update_no_volumes
    intersection same_heights
run-steps = refl
