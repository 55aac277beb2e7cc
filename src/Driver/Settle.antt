-- ===== src/Driver/Settle.antt =====
-- distributer/distribute.go: the rounds of runVolumeDistribute.
use anytoken_distribution.Base.{
  ℕ, zero, suc, List, [], ◌∷◌, ◌++◌, length, ◌||◌, not, ltb, ◌==◌, if◌then◌else◌, add64,
}
use anytoken_distribution.Int.{ℤ, is_nonpositive}
use anytoken_distribution.Driver.Run.{Run, ends, waits, ◌>>=◌}
use anytoken_distribution.Driver.Setting.{Setting}
use anytoken_distribution.Driver.Runner.{
  Distributer, Attempt, sent_all, Answers, wait_cycle_end, send_volume_rewards,
}

-- A range that rewards have been sent for, and how that ended.
pub record Settled : Type 0 where
  pub start : ℕ
  pub end : ℕ
  pub rewards : ℤ
  pub attempt : Attempt

abbrev pub missing_in : Attempt → ℕ
missing_in (sent_all missing d) = missing
missing_in _ = 0

-- `missVolumeCycles`
unfoldable pub missing_cycles : List Settled → ℕ
missing_cycles [] = 0
missing_cycles (x ∷ settled) = add64 (missing_in x.attempt) (missing_cycles settled)

-- Wait for the end of a range, and send the volume rewards for it.
unfoldable pub settle_range :
    Distributer → Setting → ℤ → (start end : ℕ) → Answers → Run (Settled × Answers)
settle_range dist s rewards start end answers = do
  answers' ← wait_cycle_end s.src.use_time_measurement end dist.runner.stable answers
  attempt ← send_volume_rewards dist s rewards start end
  ends (record { start = start; end = end; rewards = rewards; attempt = attempt }, answers')

-- The loop of settleVolumeRewards, which passes over a step that ends before `latest`. The fuel
-- bounds the steps.
unfoldable pub settle_steps :
    (fuel : ℕ)
    → Distributer
    → Setting
    → (latest start end : ℕ) → Answers
    → Run (List Settled × Answers)
unfolding settle_range
settle_steps zero dist s latest start end answers = waits
settle_steps (suc fuel) dist s latest start end answers =
    let next = add64 start dist.runner.by_volume_cycle_len in
    if not (ltb start end)
    then ends ([], answers)
    else if ltb next latest
    then settle_steps fuel dist s latest next end answers
    else do
      (x, answers') ← settle_range dist s dist.runner.by_volume_cycle_rewards start next answers
      (rest, answers'') ← settle_steps fuel dist s latest next end answers'
      ends (x ∷ rest, answers'')

-- settleVolumeRewards, where `latest` is the node's latest block number or timestamp.
unfoldable pub settle_volume_rewards :
    Distributer → Setting → (latest start end : ℕ) → Answers → Run (List Settled × Answers)
unfolding settle_range settle_steps
settle_volume_rewards dist s latest start end answers =
    if dist.runner.quick_settle_volume_rewards
    then settle_steps s.fuel dist s latest start end answers
    else do
      (x, answers') ← settle_range dist s dist.runner.total_volume_rewards start end answers
      ends (x ∷ [], answers')

-- The rounds of runVolumeDistribute, which has no end; each round asks for the latest block.
unfoldable pub volume_rounds :
    (rounds : ℕ)
    → Distributer
    → Setting
    → (latest : ℕ → ℕ) → (start : ℕ) → Answers
    → Run (List Settled × Answers)
unfolding settle_volume_rewards
volume_rounds zero dist s latest start answers = ends ([], answers)
volume_rounds (suc rounds) dist s latest start answers = do
  (settled, answers') ←
      settle_volume_rewards dist s (latest rounds) start
        (add64 start dist.runner.by_liquid_cycle_len) answers
  (rest, answers'') ←
      volume_rounds rounds dist s latest (add64 start dist.runner.by_liquid_cycle_len) answers'
  ends (settled ++ rest, answers'')

unfoldable pub run_volume_distribute :
    (rounds : ℕ)
    → Distributer
    → Setting
    → (latest : ℕ → ℕ) → (start : ℕ) → Answers
    → Run (List Settled × Answers)
unfolding volume_rounds
run_volume_distribute rounds dist s latest start answers =
    if length dist.exchanges.trade_exchanges == 0
      || is_nonpositive dist.runner.by_volume_cycle_rewards
    then ends ([], answers)
    else volume_rounds rounds dist s latest start answers
