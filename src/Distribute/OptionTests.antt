-- ===== src/Distribute/OptionTests.antt =====
-- Runs of the checks of the options, the steps without volumes and the stake points, and their
-- theorems at concrete options.
use anytoken_distribution.Base.{
  contains, ℕ, ◌≤◌, ◌≡◌, refl, none, some, List, [], ◌∷◌, All, true, false, arith,
}
use anytoken_distribution.Int.{pos}
use anytoken_distribution.Distribute.Options.{
  by_volume, DistOption, Addresses, check_and_init, check_basic, check_exchanges, check_weights,
  check_steps, check_stable, check_sender_reward_token_balance, has_zero, sum_weights,
}
use anytoken_distribution.Distribute.Checked.{IsChecked, check_and_init-IsChecked}
use anytoken_distribution.Distribute.NoVolumes.{
  update_all, nothing_seen, all_contain, is_empty, update_all-contains,
}
use anytoken_distribution.Distribute.Stake.{
  StakeConfig, calc_add_percent_of_staking, check_stake_config, is_ascending, last_point, IsOneOf,
  calc_add_percent_of_staking-Greatest,
}

abbrev addresses : Addresses
addresses = record { is_hex_address = λ s. true; is_configed_exchange = λ s. true }

abbrev options : DistOption
options = record {
  by_what = by_volume;
  total_value = pos 900;
  start_height = 1000;
  end_height = 1300;
  stable_height = 30;
  step_count = 100;
  step_reward = some (pos 300);
  exchanges = "0x1" ∷ "0x2" ∷ [];
  weights = 40 ∷ 60 ∷ [];
  reward_token = "0x3";
  sample_height = 0;
  save_db = true;
  dry_run = false;
  archive_mode = false;
  weight_is_percentage = true;
  scaling_denominator = none;
}

check_and_init-IsChecked_example : IsChecked addresses options (pos 1000) 1400
unfolding check_and_init check_basic check_exchanges check_weights check_steps check_stable
    check_sender_reward_token_balance has_zero sum_weights
check_and_init-IsChecked_example =
    check_and_init-IsChecked addresses options (pos 1000) 1400 refl (omega arith) refl

abbrev lists : List (List ℕ)
lists = (200 ∷ 300 ∷ []) ∷ (300 ∷ []) ∷ []

update_all-contains_example :
    let opt = update_all nothing_seen ((100 ∷ 200 ∷ 300 ∷ []) ∷ lists) in
    (contains 300 opt.no_volume_start_heights ≡ all_contain 300 ((100 ∷ 200 ∷ 300 ∷ []) ∷ lists))
    × (opt.has_no_missing_volumes ≡ is_empty opt.no_volume_start_heights)
update_all-contains_example = update_all-contains 300 (100 ∷ 200 ∷ 300 ∷ []) lists

abbrev stake : StakeConfig
stake = record {
  contract = "0x5";
  stakers = [];
  points = 5000 ∷ 10000 ∷ 15000 ∷ [];
  percents = 10 ∷ 20 ∷ 30 ∷ [];
}

-- The point, and not its percentage of 20.
percent-12000 : calc_add_percent_of_staking stake 12000 ≡ 10000
unfolding calc_add_percent_of_staking last_point
percent-12000 = refl

calc_add_percent_of_staking-Greatest_example :
    let r = calc_add_percent_of_staking stake 12000 in
    (r ≤ 12000) × All (λ point. point ≤ 12000 → point ≤ r) stake.points × IsOneOf r 0 stake.points
unfolding check_stake_config is_ascending
calc_add_percent_of_staking-Greatest_example =
    calc_add_percent_of_staking-Greatest (λ s. true) stake 12000 refl
