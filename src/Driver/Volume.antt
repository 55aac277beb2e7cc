-- ===== src/Driver/Volume.antt =====
-- distributer/byvolume.go: ByVolume, from the accounts to the rewards that are dispatched.
use anytoken_distribution.Base.{
  ℕ, String, Option, none, some, List, [], ◌∷◌, length, Bool, ◌&&◌, ◌||◌, not, ◌==◌, if◌then◌else◌,
  sub64,
}
use anytoken_distribution.Int.{ℤ, pos, ◌-ℤ◌, ◌*ℤ◌, is_nonpositive}
use anytoken_distribution.Outcome.{deref}
use anytoken_distribution.Reward.Stats.{AccountStat, calc_rewards_in_batch}
use anytoken_distribution.Distribute.Cycle.{calc_prev_cycle_stt_end}
use anytoken_distribution.Distribute.NoVolumes.{nothing_seen}
use anytoken_distribution.Distribute.Options.{by_volume, DistOption, check_and_init}
use anytoken_distribution.Distribute.ByVolume.{
  divide_volume_rewards_by_percentage, divide_volume_rewards_by_exchange,
}
use anytoken_distribution.Driver.Run.{
  Run, ends, fails, run_of, if_checked, if_complete, ◌>>=◌, total_rewards_is_zero, panics,
}
use anytoken_distribution.Driver.Setting.{Setting, addresses_of, calc_random_sample_height}
use anytoken_distribution.Driver.Dispatch.{
  DispatchError, Dispatched, start_dispatch, dispatch_rewards,
}
use anytoken_distribution.Driver.Accounts.{get_accounts_and_rewards}

abbrev pub kept_back : ℤ → ℕ → ℤ → ℤ
kept_back total no_volumes step_reward =
    if is_nonpositive step_reward then total else total -ℤ step_reward *ℤ pos no_volumes

-- What is left of the total once the rewards of the steps without volumes are kept back.
unfoldable pub total_reward : DistOption → (no_volumes : ℕ) → Run ℤ
total_reward opt no_volumes = if no_volumes == 0 then ends opt.total_value else do
  step_reward ← run_of (deref opt.step_reward)
  ends (kept_back opt.total_value no_volumes step_reward)

-- The slices of the exchanges, with the coins that these have at the block.
unfoldable pub with_coins :
    Setting
    → List String
    → List (List AccountStat)
    → (block : Option ℕ) → List (List AccountStat × ℤ)
with_coins s (exchange ∷ exchanges) (stat ∷ stats) block =
    (stat, s.chain.coin_balance (s.src.ex.lib.hex_to_address exchange) block)
    ∷ with_coins s exchanges stats block
with_coins s _ _ block = []

-- Where divideVolumeRewardsByExchange returns before it asks the node.
abbrev pub returns_early : DistOption → Bool
returns_early opt = length opt.exchanges == 1 || not (length opt.weights == length opt.exchanges)

-- The block that the coins are taken at, from the cycle before; `none` is the latest.
unfoldable pub sample_block : Setting → DistOption → (prev_start prev_end : ℕ) → Run (Option ℕ)
sample_block s opt prev_start prev_end =
    if returns_early opt || not opt.archive_mode
    then ends none
    else do sample ← calc_random_sample_height s prev_start prev_end; ends (some sample)

-- divideVolumeRewardsByPercentage or divideVolumeRewardsByExchange.
unfoldable pub divide_volume_rewards :
    Setting → DistOption → ℤ → List (List AccountStat) → Run (List ℤ)
unfolding sample_block with_coins
divide_volume_rewards s opt total stats =
    let (prev_start, prev_end) = calc_prev_cycle_stt_end s.start s.cycle_len opt.start_height in
    let len = sub64 opt.end_height opt.start_height in
    if opt.weight_is_percentage
    then ends (divide_volume_rewards_by_percentage total opt.weights)
    else if not (returns_early opt) && s.cycle_len == 0
    then panics
    else do
      block ← sample_block s opt prev_start prev_end
      run_of (
          divide_volume_rewards_by_exchange total len (sub64 prev_end prev_start)
            (with_coins s opt.exchanges stats block) (some opt.weights))

-- What ByVolume does with the accounts once they are complete.
unfoldable pub pay_volumes :
    Setting
    → DistOption
    → (no_volumes nonce : ℕ) → List (List AccountStat)
    → Run (Option DispatchError × Dispatched)
unfolding total_reward divide_volume_rewards
pay_volumes s opt no_volumes nonce stats = do
  total ← total_reward opt no_volumes
  if is_nonpositive total then ends (none, start_dispatch nonce) else do
    rewards ← divide_volume_rewards s opt total stats
    if not (length rewards == length stats) then ends (none, start_dispatch nonce) else do
      stats' ← run_of (calc_rewards_in_batch stats rewards)
      run_of (dispatch_rewards s opt no_volumes nonce stats')

-- The accounts of ByVolume, with the number of steps without volumes.
unfoldable pub volume_accounts :
    Setting → DistOption → (files : List String) → Run (ℕ × List (List AccountStat))
volume_accounts s opt files = do
  (stats, seen) ← get_accounts_and_rewards s opt opt.exchanges files nothing_seen
  if_complete (length seen.no_volume_start_heights) (length opt.exchanges) stats

-- ByVolume: the error of dispatchRewards, what it has sent, and `noVolumes`. A nil total is 0.
unfoldable pub by_volume_rewards :
    Setting
    → DistOption
    → (files : List String) → (nonce : ℕ) → Run (ℕ × Option DispatchError × Dispatched)
unfolding pay_volumes volume_accounts
by_volume_rewards s options files nonce =
    let opt = record options { by_what = by_volume } in
    if is_nonpositive opt.total_value
    then fails total_rewards_is_zero
    else if_checked
        (check_and_init (addresses_of s.src) opt s.chain.sender_balance s.chain.latest_height)
        (do
          (no_volumes, stats) ← volume_accounts s opt files
          (failure, d) ← pay_volumes s opt no_volumes nonce stats
          ends (no_volumes, failure, d))
