-- ===== src/Driver/Tests.antt =====
-- Runs of ByVolume, ByLiquidity and settleVolumeRewards, and their theorems, at a few accounts.
use anytoken_distribution.Base.{
  ◌*◌, ◌-◌, ◌≡◌, refl, none, some, Option, List, [], ◌∷◌, All, false, true, arith,
}
use anytoken_distribution.Int.{pos, ◌+ℤ◌, ◌-ℤ◌, ◌*ℤ◌, ◌/ℤ◌, sum}
use anytoken_distribution.Outcome.{returns, deref_all}
use anytoken_distribution.Config.Lookups.{
  is_excluded_reward_account, is_configed_exchange, get_exchange_pairs, is_in_all_exchanges,
}
use anytoken_distribution.Receipts.Records.{MgoVolumeHistory, MgoAccount}
use anytoken_distribution.Reward.Stats.{
  AccountStat, calc_rewards_in_batch, calc_weighted_rewards, calc_rewards, assign_rewards,
}
use anytoken_distribution.Reward.Divide.{divide_rewards, proportions, spread, share_left}
use anytoken_distribution.Reward.Fresh.{IsFunded}
use anytoken_distribution.Distribute.Nonces.{total_value, HasRoom}
use anytoken_distribution.Distribute.Options.{
  by_volume, by_liquid, unset, DistOption, check_and_init, check_basic, check_exchanges,
  check_weights, check_steps, check_stable, check_sender_reward_token_balance, has_zero,
  sum_weights,
}
use anytoken_distribution.Distribute.ByVolume.{divide_volume_rewards_by_percentage}
use anytoken_distribution.Distribute.NoVolumes.{update_no_volumes, intersection, same_heights}
use anytoken_distribution.Volumes.Find.{
  volume_query, counted_volume, add_volume, collect_volumes, with_shares, convert_to_sorted_slice,
  find_account_volumes,
}
use anytoken_distribution.Volumes.Rearranged.{keep}
use anytoken_distribution.Volumes.Rewards.{
  rewarded, get_single_cycle_rewards_from_db, add_rewarded, merge_stats, reward_steps,
  get_accounts_and_rewards_from_db,
}
use anytoken_distribution.Database.Store.{find_id}
use anytoken_distribution.Database.Insert.{
  key_of_three, add_once, add_or_overwrite, insert_id, upsert_id,
}
use anytoken_distribution.Driver.Quiet.{quiet}
use anytoken_distribution.Driver.Run.{ends}
use anytoken_distribution.Driver.Setting.{Setting, addresses_of}
use anytoken_distribution.Driver.Accounts.{
  accounts_and_rewards, get_accounts_and_rewards, get_accounts_and_shares, find_all_accounts,
  get_accounts,
}
use anytoken_distribution.Driver.Dispatch.{DispatchError, Dispatched}
use anytoken_distribution.Driver.Dispatched.{IsDispatched, all_sent, total_sended, total_dust}
use anytoken_distribution.Driver.Owed.{PaysAll}
use anytoken_distribution.Driver.Granted.{IsEndowed, kept}
use anytoken_distribution.Driver.Volume.{volume_accounts, by_volume_rewards}
use anytoken_distribution.Driver.VolumePaid.{by_volume_rewards-granted}
use anytoken_distribution.Driver.Balances.{
  sample_of, liquidity_value, coin_share, put_balance, add_account, add_accounts, is_complete,
  get_liquidity_balances_of_exchange, Stored,
}
use anytoken_distribution.Driver.Liquidity.{
  calc_sample_height, get_liquidity_balances, shares_or_balances, liquidity_accounts,
  by_liquidity_rewards,
}
use anytoken_distribution.Driver.LiquidityPaid.{by_liquidity_rewards-granted}

abbrev traded : MgoVolumeHistory
traded = record {
  exchange = "0xe";
  pairs = "ANY";
  account = "0x1";
  coin_amount = "7";
  token_amount = "7";
  block_number = 100;
  timestamp = 9000;
  tx_hash = "0xa";
  log_type = "TokenPurchase";
  log_index = 1;
}

abbrev history : List MgoVolumeHistory
history = traded ∷ record traded { account = "0x2" } ∷ record traded { block_number = 200 } ∷ []

abbrev account_1 : MgoAccount
account_1 = record { exchange = "0xe"; pairs = "ANY"; account = "0x1" }

abbrev holders : List MgoAccount
holders = account_1 ∷ record account_1 { account = "0x2" } ∷ []

-- The sender has 1000. Both accounts have 7 of a liquidity of 70, behind which are 700 coins.
abbrev setting : Setting
setting = record quiet {
  src = record quiet.src {
    db = record { find = λ query. keep query history; sort = λ stats. stats };
  };
  chain = record quiet.chain { sender_balance = pos 1000 };
  find_accounts = λ query. holders;
}

abbrev options : DistOption
options = record {
  by_what = unset;
  total_value = pos 1000;
  start_height = 0;
  end_height = 400;
  stable_height = 30;
  step_count = 100;
  step_reward = some (pos 250);
  exchanges = "0xe" ∷ [];
  weights = 100 ∷ [];
  reward_token = "0x2";
  sample_height = 0;
  save_db = false;
  dry_run = false;
  archive_mode = false;
  weight_is_percentage = true;
  scaling_denominator = none;
}

-- The first and the last step are without volumes.
abbrev traders : List (List AccountStat)
traders =
    (record { account = 1; reward = some (pos 375); share = some (pos 14); number = 2 }
      ∷ record { account = 2; reward = some (pos 125); share = some (pos 7); number = 1 }
      ∷ [])
    ∷ []

found_traders :
    volume_accounts setting (record options { by_what = by_volume }) [] ≡ ends (2, traders)
unfolding volume_accounts get_accounts_and_rewards accounts_and_rewards
    get_accounts_and_rewards_from_db reward_steps get_single_cycle_rewards_from_db rewarded
    merge_stats add_rewarded find_account_volumes volume_query counted_volume add_volume
    collect_volumes with_shares convert_to_sorted_slice is_excluded_reward_account
    is_configed_exchange get_exchange_pairs is_in_all_exchanges ◌+ℤ◌ ◌-ℤ◌ ◌*ℤ◌ ◌/ℤ◌ calc_rewards
    divide_rewards proportions spread share_left sum deref_all assign_rewards update_no_volumes
    intersection same_heights
found_traders = refl

checked_options :
    check_and_init
      (addresses_of setting.src)
      (record options { by_what = by_volume })
      (pos 1000)
      500
    ≡ none
unfolding check_and_init check_basic check_exchanges check_weights check_steps check_stable
    check_sender_reward_token_balance has_zero sum_weights
checked_options = refl

traders-IsEndowed : All IsEndowed traders
unfolding ◌+ℤ◌
traders-IsEndowed = (
  ((record { units = 375; rated = refl }, (record { units = 125; rated = refl }, tt)), omega arith),
  tt,
)

silent-HasRoom : HasRoom 2 (record { pending = none; signs = true; accepts = true })
silent-HasRoom n e = cc

by_volume_rewards-granted_example :
    let rewards = divide_volume_rewards_by_percentage (pos (1000 - 250 * 2)) (100 ∷ []) in
    (failure : Option DispatchError) × (d : Dispatched) × (by_volume_rewards setting options [] 5
      ≡ ends (2, failure, d))
    × IsDispatched setting (record options { by_what = by_volume }) 0 d
    × (failure ≡ none → total_sended d.loops +ℤ pos (250 * 2) ≡ pos 1000 +ℤ kept traders rewards)
    × (failure ≡ none
        → options.dry_run ≡ false
        → total_value (all_sent d.loops) +ℤ total_dust d.loops +ℤ pos (250 * 2)
          ≡ pos 1000 +ℤ kept traders rewards)
    × ((stats' : List (List AccountStat)) × (calc_rewards_in_batch traders rewards ≡ returns stats')
        × PaysAll setting (record options { by_what = by_volume }) stats' (failure, d))
by_volume_rewards-granted_example =
    by_volume_rewards-granted setting options [] 1000 2 250 5 traders refl refl refl (omega arith)
      checked_options found_traders traders-IsEndowed (omega arith) (omega arith)
      (λ i j. silent-HasRoom)

abbrev sampled : DistOption
sampled = record options { by_what = by_liquid; sample_height = 0 }

abbrev holdings : List (List AccountStat)
holdings =
    (record { account = 1; reward = none; share = some (pos 70); number = 500 }
      ∷ record { account = 2; reward = none; share = some (pos 70); number = 500 }
      ∷ [])
    ∷ []

abbrev stored_balances : Stored
stored_balances =
    (
      "0xe:0x1:7",
      record { exchange = "0xe"; pairs = ""; account = "0x1"; block_number = 500; liquidity = "7" },
    )
    ∷ (
      "0xe:0x2:7",
      record { exchange = "0xe"; pairs = ""; account = "0x2"; block_number = 500; liquidity = "7" },
    )
    ∷ []

found_holdings : liquidity_accounts setting sampled [] [] ≡ ends (stored_balances, holdings)
unfolding liquidity_accounts get_accounts_and_shares shares_or_balances get_accounts
    find_all_accounts get_liquidity_balances get_liquidity_balances_of_exchange sample_of
    add_accounts add_account liquidity_value coin_share put_balance add_once add_or_overwrite
    insert_id upsert_id find_id key_of_three is_complete convert_to_sorted_slice with_shares
    is_excluded_reward_account is_configed_exchange get_exchange_pairs is_in_all_exchanges ◌+ℤ◌ ◌-ℤ◌
    ◌*ℤ◌ ◌/ℤ◌
found_holdings = refl

checked_sampled : check_and_init (addresses_of setting.src) sampled (pos 1000) 500 ≡ none
unfolding check_and_init check_basic check_exchanges check_weights check_steps check_stable
    check_sender_reward_token_balance has_zero sum_weights
checked_sampled = refl

holdings-IsFunded : All IsFunded holdings
holdings-IsFunded = (
  (
    record { units = 69; shared = refl; unpaid = refl },
    (record { units = 69; shared = refl; unpaid = refl }, tt),
  ),
  tt,
)

no_sample : calc_sample_height setting (record options { by_what = by_liquid }) ≡ ends 0
unfolding calc_sample_height
no_sample = refl

by_liquidity_rewards-granted_example :
    (failure : Option DispatchError) × (d : Dispatched) × (by_liquidity_rewards setting options []
        [] 5
      ≡ ends (stored_balances, failure, d))
    × IsDispatched setting sampled 0 d
    × (failure ≡ none → total_sended d.loops ≡ pos 1000)
    × (failure ≡ none
        → options.dry_run ≡ false
        → total_value (all_sent d.loops) +ℤ total_dust d.loops ≡ pos 1000)
    × ((stats' : List (List AccountStat)) × (calc_weighted_rewards holdings
            (some (pos 1000))
            (some (100 ∷ []))
          ≡ returns stats')
        × PaysAll setting sampled stats' (failure, d))
by_liquidity_rewards-granted_example =
    by_liquidity_rewards-granted setting options [] [] stored_balances 1000 0 5 holdings refl
      (omega arith) (omega arith) no_sample checked_sampled found_holdings holdings-IsFunded
      (omega arith) (λ i j. silent-HasRoom)
