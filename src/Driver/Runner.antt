-- ===== src/Driver/Runner.antt =====
-- distributer/distribute.go: the options that the runner makes of a cycle, and what comes of them.
use anytoken_distribution.Base.{
  ℕ, String, Option, none, some, List, [], ◌∷◌, length, Bool, true, false, ◌||◌, ltb, leb, ◌==◌,
  if◌then◌else◌, add64,
}
use anytoken_distribution.Int.{ℤ, is_nonpositive}
use anytoken_distribution.Distribute.Cycle.{Runner}
use anytoken_distribution.Distribute.Options.{unset, DistOption}
use anytoken_distribution.Driver.Run.{Run, RunError, ends, fails, panics, waits}
use anytoken_distribution.Driver.Setting.{Setting}
use anytoken_distribution.Driver.Dispatch.{DispatchError, Dispatched}
use anytoken_distribution.Driver.Balances.{Stored}
use anytoken_distribution.Driver.Volume.{by_volume_rewards}
use anytoken_distribution.Driver.Liquidity.{by_liquidity_rewards}

-- The exchanges of a runner with their weights.
pub record Exchanges : Type 0 where
  pub liquid_exchanges : List String
  pub liquid_weights : List ℕ
  pub trade_exchanges : List String
  pub trade_weights : List ℕ

-- The loop of initDistributer over the configured exchanges, with their liquidity and trade weights.
unfoldable pub take_exchanges : List (String × ℕ × ℕ) → Exchanges
take_exchanges [] = record {
  liquid_exchanges = [];
  liquid_weights = [];
  trade_exchanges = [];
  trade_weights = [];
}
take_exchanges ((exchange, liquid_weight, trade_weight) ∷ rest) =
    let taken = take_exchanges rest in
    let liquid : Exchanges = record taken {
      liquid_exchanges = exchange ∷ taken.liquid_exchanges;
      liquid_weights = liquid_weight ∷ taken.liquid_weights;
    } in
    let with_liquid : Exchanges = if ltb 0 liquid_weight then liquid else taken in
    if ltb 0 trade_weight
    then record with_liquid {
      trade_exchanges = exchange ∷ taken.trade_exchanges;
      trade_weights = trade_weight ∷ taken.trade_weights;
    }
    else with_liquid

-- The runner with the fields that its options are made of.
pub record Distributer : Type 0 where
  pub runner : Runner
  pub exchanges : Exchanges
  pub sample_height : ℕ
  pub reward_token : String
  pub trade_weight_is_percentage : Bool

-- How sendVolumeRewards or sendLiquidRewards ends; `missing` is the number of steps without volumes.
pub data Attempt : Type 0 where
  nothing_to_send : Attempt
  sent_all : (missing : ℕ) → Dispatched → Attempt
  stopped : DispatchError → Dispatched → Attempt
  refused : RunError → Attempt

unfoldable pub volume_option : Distributer → ℤ → (start end : ℕ) → DistOption
volume_option dist rewards start end = record {
  by_what = unset;
  total_value = rewards;
  start_height = start;
  end_height = end;
  stable_height = dist.runner.stable;
  step_count = dist.runner.by_volume_cycle_len;
  step_reward = some dist.runner.by_volume_cycle_rewards;
  exchanges = dist.exchanges.trade_exchanges;
  weights = dist.exchanges.trade_weights;
  reward_token = dist.reward_token;
  sample_height = 0;
  save_db = false;
  dry_run = true;
  archive_mode = dist.runner.is_archive_mode;
  weight_is_percentage = dist.trade_weight_is_percentage;
  scaling_denominator = none;
}

unfoldable pub liquid_option : Distributer → ℤ → (start end : ℕ) → DistOption
liquid_option dist rewards start end = record {
  by_what = unset;
  total_value = rewards;
  start_height = start;
  end_height = end;
  stable_height = dist.runner.stable;
  step_count = 0;
  step_reward = none;
  exchanges = dist.exchanges.liquid_exchanges;
  weights = dist.exchanges.liquid_weights;
  reward_token = dist.reward_token;
  sample_height = dist.sample_height;
  save_db = false;
  dry_run = true;
  archive_mode = dist.runner.is_archive_mode;
  weight_is_percentage = false;
  scaling_denominator = none;
}

abbrev pub volume_attempt : Run (ℕ × Option DispatchError × Dispatched) → Run Attempt
volume_attempt (ends (missing, none, d)) = ends (sent_all missing d)
volume_attempt (ends (missing, some e, d)) = ends (stopped e d)
volume_attempt (fails e) = ends (refused e)
volume_attempt panics = panics
volume_attempt waits = waits

-- sendVolumeRewards, a dry run: the nonce is not used.
unfoldable pub send_volume_rewards : Distributer → Setting → ℤ → (start end : ℕ) → Run Attempt
unfolding volume_option
send_volume_rewards dist s rewards start end =
    if length dist.exchanges.trade_exchanges == 0 || is_nonpositive rewards
    then ends nothing_to_send
    else volume_attempt (by_volume_rewards s (volume_option dist rewards start end) [] 0)

abbrev pub liquid_attempt :
    Stored → Run (Stored × Option DispatchError × Dispatched) → Run (Stored × Attempt)
liquid_attempt stored (ends (stored', none, d)) = ends (stored', sent_all 0 d)
liquid_attempt stored (ends (stored', some e, d)) = ends (stored', stopped e d)
liquid_attempt stored (fails e) = ends (stored, refused e)
liquid_attempt stored panics = panics
liquid_attempt stored waits = waits

-- sendLiquidRewards; an error comes before any balance is stored.
unfoldable pub send_liquid_rewards :
    Distributer
    → Setting
    → ℤ
    → (start end : ℕ) → (files : List String) → Stored
    → Run (Stored × Attempt)
unfolding liquid_option
send_liquid_rewards dist s rewards start end files stored =
    if length dist.exchanges.liquid_exchanges == 0 || is_nonpositive rewards
    then ends (stored, nothing_to_send)
    else liquid_attempt stored
        (by_liquidity_rewards s (liquid_option dist rewards start end) files stored 0)

-- FindLatestSyncInfo; the hash is left out.
pub record MgoSyncInfo : Type 0 where
  pub number : ℕ
  pub timestamp : ℕ

-- The answers of FindLatestSyncInfo over the time of a run, where an error is `none`.
abbrev pub Answers : Type 0
Answers = List (Option MgoSyncInfo)

abbrev pub measure : (use_time_measurement : Bool) → MgoSyncInfo → ℕ
measure use_time_measurement info = if use_time_measurement then info.timestamp else info.number

-- waitCycleEnd: the later answers.
unfoldable pub wait_cycle_end :
    (use_time_measurement : Bool) → (cycle_end stable : ℕ) → Answers → Run Answers
wait_cycle_end use_time cycle_end stable [] = waits
wait_cycle_end use_time cycle_end stable (none ∷ answers) =
    wait_cycle_end use_time cycle_end stable answers
wait_cycle_end use_time cycle_end stable (some info ∷ answers) =
    if leb (add64 cycle_end stable) (measure use_time info)
    then ends answers
    else wait_cycle_end use_time cycle_end stable answers
