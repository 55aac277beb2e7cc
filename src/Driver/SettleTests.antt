-- ===== src/Driver/SettleTests.antt =====
-- settleVolumeRewards and calcVolumeRewards over a cycle of three steps.
use anytoken_distribution.Base.{
  ℕ, zero, suc, ◌≡◌, refl, sym, subst, none, some, Option, List, [], ◌∷◌, false, true, arith,
}
use anytoken_distribution.Int.{pos, ◌+ℤ◌, ◌-ℤ◌, ◌*ℤ◌, ◌/ℤ◌, sum}
use anytoken_distribution.Outcome.{deref_all}
use anytoken_distribution.Config.Lookups.{
  is_excluded_reward_account, is_configed_exchange, get_exchange_pairs, is_in_all_exchanges,
}
use anytoken_distribution.Receipts.Records.{MgoVolumeHistory}
use anytoken_distribution.Reward.Stats.{
  calc_rewards, assign_rewards, calc_each, calc_rewards_in_batch,
}
use anytoken_distribution.Reward.Divide.{divide_rewards, proportions, spread, share_left}
use anytoken_distribution.Driver.Quiet.{quiet}
use anytoken_distribution.Driver.Setting.{Setting}
use anytoken_distribution.Distribute.Options.{
  check_and_init, check_basic, check_exchanges, check_weights, check_steps, check_stable,
  check_sender_reward_token_balance, has_zero, sum_weights,
}
use anytoken_distribution.Distribute.Cycle.{check_start_end_height}
use anytoken_distribution.Distribute.Settlement.{IsReady}
use anytoken_distribution.Distribute.NoVolumes.{update_no_volumes}
use anytoken_distribution.Distribute.ByVolume.{divide_volume_rewards_by_exchange}
use anytoken_distribution.Volumes.Find.{find_account_volumes}
use anytoken_distribution.Volumes.Rewards.{get_accounts_and_rewards_from_db}
use anytoken_distribution.Driver.Accounts.{get_accounts_and_rewards}
use anytoken_distribution.Driver.Dispatch.{dispatch_rewards, title_line}
use anytoken_distribution.Distribute.Send.{send_rewards, send_one, payable, start_sending}
use anytoken_distribution.Driver.Volume.{by_volume_rewards}
use anytoken_distribution.Driver.Run.{ends}
use anytoken_distribution.Driver.Runner.{
  Attempt, sent_all, Distributer, volume_option, Answers, send_volume_rewards, take_exchanges,
}
use anytoken_distribution.Driver.Settle.{Settled, settle_volume_rewards}
use anytoken_distribution.Driver.Settled.{SendEnds, AllEnd, Resumes, settle_volume_rewards-Resumes}
use anytoken_distribution.Driver.CalcRewards.{CalcError, calc_volume_rewards}
use anytoken_distribution.Driver.CalcSettled.{SettlesTo, calc_volume_rewards-SettlesTo}

abbrev distributer : Distributer
distributer = record {
  runner = record {
    start = 0;
    stable = 30;
    by_liquid_cycle_len = 300;
    by_liquid_cycle_rewards = pos 0;
    by_volume_cycle_len = 100;
    by_volume_cycle_rewards = pos 5;
    total_volume_cycles = 3;
    total_volume_rewards = pos 15;
    quick_settle_volume_rewards = true;
    is_archive_mode = false;
  };
  exchanges = take_exchanges (("0xe", 0, 3) ∷ []);
  sample_height = 0;
  reward_token = "0x2";
  trade_weight_is_percentage = false;
}

-- One account trades in every step.
abbrev traded : MgoVolumeHistory
traded = record {
  exchange = "0xe";
  pairs = "ANY";
  account = "0x1";
  coin_amount = "7";
  token_amount = "7";
  block_number = 50;
  timestamp = 9000;
  tx_hash = "0xa";
  log_type = "TokenPurchase";
  log_index = 1;
}

abbrev setting : Setting
setting = record quiet {
  src = record quiet.src { db = record { find = λ query. traded ∷ []; sort = λ stats. stats } };
}

-- The database is behind at first.
abbrev answers : Answers
answers =
    some (record { number = 130; timestamp = 0 })
    ∷ none
    ∷ some (record { number = 400; timestamp = 0 })
    ∷ some (record { number = 401; timestamp = 0 })
    ∷ some (record { number = 402; timestamp = 0 })
    ∷ []

-- What a step comes to, a dry run as all of the runner's.
abbrev step_sent : Attempt
step_sent = sent_all 0 (record {
  nonce = 0;
  loops =
      record {
        nonce = 0;
        rewards_sended = pos 5;
        total_dust_reward = pos 0;
        total_dust_reward_count = 0;
        written = 1;
        transactions = [];
      }
      ∷ [];
  infos = [];
})

steps_sent :
    (send_volume_rewards distributer setting (pos 5) 0 100 ≡ ends step_sent)
    × (send_volume_rewards distributer setting (pos 5) 100 200 ≡ ends step_sent)
    × (send_volume_rewards distributer setting (pos 5) 200 300 ≡ ends step_sent)
unfolding send_volume_rewards volume_option take_exchanges by_volume_rewards check_and_init
    check_basic check_exchanges check_weights check_steps check_stable
    check_sender_reward_token_balance has_zero sum_weights get_accounts_and_rewards
    get_accounts_and_rewards_from_db find_account_volumes is_excluded_reward_account
    is_configed_exchange get_exchange_pairs is_in_all_exchanges calc_rewards ◌-ℤ◌ ◌/ℤ◌ deref_all
    divide_rewards sum ◌+ℤ◌ share_left proportions spread ◌*ℤ◌ assign_rewards update_no_volumes
    divide_volume_rewards_by_exchange calc_rewards_in_batch calc_each dispatch_rewards title_line
    send_rewards send_one payable start_sending
steps_sent = (refl, refl, refl)

at_step :
    (a b x y : ℕ)
    → x ≡ a
    → y ≡ b
    → SendEnds distributer setting (pos 5) a b
    → SendEnds distributer setting (pos 5) x y
at_step a b x y hx hy sent =
    subst (λ p. SendEnds distributer setting (pos 5) p y) (sym hx)
      (subst (λ q. SendEnds distributer setting (pos 5) a q) (sym hy) sent)

sends-AllEnd : AllEnd distributer setting 0 3
sends-AllEnd zero x y lt hx hy =
    at_step 0 100 x y (omega arith) (omega arith) (step_sent, steps_sent.0)
sends-AllEnd (suc zero) x y lt hx hy =
    at_step 100 200 x y (omega arith) (omega arith) (step_sent, steps_sent.1)
sends-AllEnd (suc (suc zero)) x y lt hx hy =
    at_step 200 300 x y (omega arith) (omega arith) (step_sent, steps_sent.2)
sends-AllEnd (suc (suc (suc j))) x y lt hx hy = absurd (omega arith)

-- The step before the latest block is passed over.
settle_volume_rewards-Resumes_example :
    (settled : List Settled) × (answers' : Answers) × (settle_volume_rewards distributer setting 150
        0 300 answers
      ≡ ends (settled, answers'))
    × Resumes (pos 5) 150 0 300 settled
settle_volume_rewards-Resumes_example =
    settle_volume_rewards-Resumes 3 distributer setting 150 0 300 330 answers refl sends-AllEnd
      (omega arith) refl (omega arith) (omega arith) (omega arith) (omega arith) (omega arith)

distributer-IsReady : IsReady distributer.runner
unfolding ◌*ℤ◌
distributer-IsReady = record {
  volume_len_pos = omega arith;
  liquid_len_pos = omega arith;
  whole = refl;
  rewards = refl;
}

calc_volume_rewards-SettlesTo_example :
    (failure : Option CalcError) × (settled : List Settled) × (answers' : Answers)
    × (calc_volume_rewards distributer setting 0 300 answers ≡ ends (failure, settled, answers'))
    × SettlesTo (pos 5) 0 300 3 failure settled
unfolding check_start_end_height
calc_volume_rewards-SettlesTo_example =
    calc_volume_rewards-SettlesTo 3 distributer setting 0 300 330 answers distributer-IsReady refl
      (record { steps = λ _. sends-AllEnd; whole = λ c. cc }) refl (omega arith) (omega arith)
      (omega arith) (omega arith) (omega arith) (omega arith) (omega arith)
