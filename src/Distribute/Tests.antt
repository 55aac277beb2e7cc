-- ===== src/Distribute/Tests.antt =====
-- Runs of distributer/'s functions, and its theorems at concrete blocks, cycles and nodes.
use anytoken_distribution.Base.{
  ℕ, ◌+◌, ◌-◌, ◌*◌, ◌/◌, ◌≤◌, ◌<◌, ◌≡◌, refl, none, some, List, [], ◌∷◌, true, false, arith, inl,
  inr,
}
use anytoken_distribution.Int.{pos, ◌+ℤ◌}
use anytoken_distribution.Outcome.{returns}
use anytoken_distribution.Reward.Stats.{AccountStat}
use anytoken_distribution.Distribute.Search.{
  find_block_by_timestamp, find_from, search_from, binary_search, wait_block, back_off, step_back,
}
use anytoken_distribution.Distribute.FirstBlock.{
  IsFirst, Increasing, find_block_by_timestamp-IsFirst,
}
use anytoken_distribution.Distribute.Cycle.{
  Runner, CycleConfig, init_distributer, init_failure, has_weight, calc_prev_cycle_stt_end,
  calc_random_sample,
}
use anytoken_distribution.Distribute.CycleBounds.{
  calc_prev_cycle_stt_end_bounds, calc_random_sample_bounds,
}
use anytoken_distribution.Distribute.Settlement.{IsReady, init_distributer-IsReady}
use anytoken_distribution.Distribute.Send.{
  Node, Sender, send_rewards, start_sending, send_one, payable, account_result,
  send_rewards_transaction, next_nonce,
}
use anytoken_distribution.Distribute.Nonces.{
  IsAccounted, HasRoom, payable_sum, send_rewards_accounts,
}

-- A block every 13 seconds.
abbrev every_13 : ℕ → ℕ
every_13 n = 13 * n + 1000

every_13-Increasing : Increasing every_13
every_13-Increasing i j lt = omega arith

find-1500 : find_block_by_timestamp every_13 1500 101 13 (30 ∷ 90 ∷ []) ≡ some 39
unfolding find_block_by_timestamp find_from search_from binary_search wait_block back_off step_back
find-1500 = refl

find_block_by_timestamp-IsFirst_example :
    (r : ℕ) × (find_block_by_timestamp every_13 1500 101 13 (30 ∷ 90 ∷ []) ≡ some r)
    × IsFirst every_13 1500 r
find_block_by_timestamp-IsFirst_example =
    find_block_by_timestamp-IsFirst every_13 1500 every_13-Increasing 101 13 (30 ∷ 90 ∷ [])
      ((omega arith, omega arith, omega arith), ((omega arith, omega arith, omega arith), tt))
      (inr (inl (omega arith)))

calc_prev_cycle_stt_end_bounds_example :
    let (pre_start, pre_end) = calc_prev_cycle_stt_end 100 50 380 in
    (pre_start + 50 ≡ pre_end)
    × (100 ≤ pre_start)
    × ((k : ℕ) × (pre_end ≡ 100 + k * 50))
    × (pre_end ≤ 380)
    × (380 < pre_end + 50)
calc_prev_cycle_stt_end_bounds_example =
    calc_prev_cycle_stt_end_bounds 100 50 380 (omega arith) (omega arith) (omega arith)

-- A generator below its bound.
abbrev halves : ℕ → ℕ
halves max = max / 2

halves_below : (max : ℕ) → 0 < max → halves max < max
halves_below max h = omega arith

calc_random_sample_bounds_example :
    (sample : ℕ) × (calc_random_sample halves 1000 1300 ≡ returns sample)
    × (1000 + (1300 - 1000) / 3 ≤ sample)
    × (sample < 1300)
calc_random_sample_bounds_example =
    calc_random_sample_bounds halves 1000 1300 halves_below (omega arith) (omega arith)
      (omega arith)

abbrev config : CycleConfig
config = record {
  use_time_measurement = false;
  start_timestamp = 0;
  stable_duration = 0;
  by_liquid_cycle_duration = 0;
  by_volume_cycle_duration = 0;
  start_height = 100;
  stable_height = 10;
  by_liquid_cycle = 300;
  by_volume_cycle = 100;
  by_liquid_rewards = pos 5000;
  by_volume_rewards = pos 700;
  quick_settle_volume_rewards = true;
  archive_mode = true;
}

abbrev weights : List (ℕ × ℕ)
weights = (0, 0) ∷ (1, 2) ∷ []

abbrev runner : Runner
runner = (init_distributer config weights).1

init_distributer-IsReady_example : IsReady (init_distributer config weights).1
unfolding init_distributer init_failure has_weight
init_distributer-IsReady_example = init_distributer-IsReady config weights refl

abbrev sender : Sender
sender = record { dust_threshold = pos 5; reward_token = 9; is_dry_run = false }

-- The node answers with nonce 7, and takes every transaction.
abbrev willing : Node
willing = record { pending = some 7; signs = true; accepts = true }

abbrev paid_stats : List AccountStat
paid_stats =
    record { account = 1; reward = some (pos 30); share = some (pos 3); number = 2 }
    ∷ record { account = 2; reward = some (pos 4); share = some (pos 1); number = 1 }
    ∷ record { account = 3; reward = none; share = none; number = 0 }
    ∷ record { account = 4; reward = some (pos 50); share = some (pos 5); number = 1 }
    ∷ []

-- The dust of 4 is in the rewards sent.
send-paid_stats :
    let (ended, p) = send_rewards sender (λ _. willing) 0 paid_stats (start_sending 3) in
    (ended ≡ true) × (p.rewards_sended ≡ pos 84) × (p.total_dust_reward ≡ pos 4) × (p.nonce ≡ 9)
unfolding send_rewards start_sending send_one payable account_result send_rewards_transaction
    next_nonce ◌+ℤ◌
send-paid_stats = (refl, refl, refl, refl)

some_injective : (m n : ℕ) → some m ≡ some n → m ≡ n
some_injective m n e = cc

willing-HasRoom : (j : ℕ) → HasRoom 4 willing
willing-HasRoom j n e = omega (arith, some_injective 7 n e)

send_rewards_accounts_example :
    let (ended, p) = send_rewards sender (λ _. willing) 0 paid_stats (start_sending 3) in
    IsAccounted sender p × (ended ≡ true → p.rewards_sended ≡ payable_sum paid_stats)
send_rewards_accounts_example =
    send_rewards_accounts sender (λ _. willing) 3 paid_stats (omega arith) willing-HasRoom
