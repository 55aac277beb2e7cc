-- ===== src/Driver/CalcRewards.antt =====
-- distributer/distribute.go: CalcRewards, with calcVolumeRewards and calcLiquidRewards.
use anytoken_distribution.Base.{
  ℕ, zero, suc, String, Option, none, some, List, [], ◌∷◌, length, ◌&&◌, not, ltb, ◌==◌,
  if◌then◌else◌, add64,
}
use anytoken_distribution.Distribute.Cycle.{
  CalcType, has_volume, has_liquid, RangeError, check_start_end_height, check_sample_height,
}
use anytoken_distribution.Driver.Run.{Run, RunError, ends, waits, ◌>>=◌}
use anytoken_distribution.Driver.Setting.{Setting}
use anytoken_distribution.Driver.Dispatch.{DispatchError}
use anytoken_distribution.Driver.Balances.{Stored}
use anytoken_distribution.Driver.Settle.{Settled, settle_range}
use anytoken_distribution.Driver.Runner.{
  Distributer, Attempt, nothing_to_send, sent_all, stopped, refused, Answers, wait_cycle_end,
  send_liquid_rewards,
}

-- The errors of CalcRewards.
pub data CalcError : Type 0 where
  wrong_range : RangeError → CalcError
  not_distributed : RunError → CalcError
  not_dispatched : DispatchError → CalcError
  wrong_inputs : CalcError

abbrev pub attempt_error : Attempt → Option CalcError
attempt_error nothing_to_send = none
attempt_error (sent_all missing d) = none
attempt_error (stopped e d) = some (not_dispatched e)
attempt_error (refused e) = some (not_distributed e)

-- The loop of calcVolumeRewards in quick steps, which an error ends.
unfoldable pub calc_steps :
    (fuel : ℕ)
    → Distributer
    → Setting
    → (start end : ℕ) → Answers
    → Run (Option CalcError × List Settled × Answers)
unfolding settle_range
calc_steps zero dist s start end answers = waits
calc_steps (suc fuel) dist s start end answers =
    let next = add64 start dist.runner.by_volume_cycle_len in
    if not (ltb start end) then ends (none, [], answers) else do
      (x, answers') ← settle_range dist s dist.runner.by_volume_cycle_rewards start next answers
      elim (attempt_error x.attempt) [
        | some e ↦ ends (some e, x ∷ [], answers')
        | none ↦ (do
          (failure, rest, answers'') ← calc_steps fuel dist s next end answers'
          ends (failure, x ∷ rest, answers''))
      ]

unfoldable pub calc_volume_rewards :
    Distributer
    → Setting
    → (start end : ℕ) → Answers
    → Run (Option CalcError × List Settled × Answers)
unfolding settle_range calc_steps
calc_volume_rewards dist s start end answers =
    if dist.runner.quick_settle_volume_rewards
    then calc_steps s.fuel dist s start end answers
    else do
      (x, answers') ← settle_range dist s dist.runner.total_volume_rewards start end answers
      ends (attempt_error x.attempt, x ∷ [], answers')

unfoldable pub calc_liquid_rewards :
    Distributer
    → Setting
    → (start end : ℕ) → (inputs : List String) → Stored
    → Answers
    → Run (Option CalcError × Attempt × Stored)
calc_liquid_rewards dist s start end inputs stored answers =
    let wrong =
      not (length inputs == 0) && not (length inputs == length dist.exchanges.liquid_exchanges) in
    do
      answers' ←
          (if not (dist.sample_height == 0) && dist.runner.is_archive_mode
            then wait_cycle_end s.src.use_time_measurement dist.sample_height dist.runner.stable
                answers
            else ends answers)
      if wrong then ends (some wrong_inputs, nothing_to_send, stored) else do
        (stored', attempt) ←
            send_liquid_rewards dist s dist.runner.by_liquid_cycle_rewards start end inputs stored
        ends (attempt_error attempt, attempt, stored')

-- What CalcRewards leaves: its error, the volume rewards, the liquidity rewards, the stored balances.
pub record Calculated : Type 0 where
  pub failure : Option CalcError
  pub settled : List Settled
  pub liquid : Attempt
  pub stored : Stored

unfoldable pub calc_liquid_after :
    Distributer
    → Setting
    → CalcType
    → (start end : ℕ) → (inputs : List String) → Stored
    → Option CalcError × List Settled × Answers
    → Run Calculated
unfolding calc_liquid_rewards
calc_liquid_after dist s calc_type start end inputs stored (some e, settled, answers) =
    ends (record { failure = some e; settled = settled; liquid = nothing_to_send; stored = stored })
calc_liquid_after dist s calc_type start end inputs stored (none, settled, answers) = do
  (failure, attempt, stored') ←
      (if has_liquid calc_type
        then calc_liquid_rewards dist s start end inputs stored answers
        else ends (none, nothing_to_send, stored))
  ends (record { failure = failure; settled = settled; liquid = attempt; stored = stored' })

-- CalcRewards after its checks.
unfoldable pub calc_checked_rewards :
    Distributer
    → Setting
    → CalcType
    → (start end : ℕ) → (inputs : List String) → Stored
    → Answers
    → Run Calculated
unfolding calc_volume_rewards calc_liquid_after
calc_checked_rewards dist s calc_type start end inputs stored answers = do
  volumes ←
      (if has_volume calc_type
        then calc_volume_rewards dist s start end answers
        else ends (none, [], answers))
  calc_liquid_after dist s calc_type start end inputs stored volumes

abbrev pub refuse : Option RangeError → Stored → Run Calculated → Run Calculated
refuse none stored run = run
refuse (some e) stored run = ends (record {
  failure = some (wrong_range e);
  settled = [];
  liquid = nothing_to_send;
  stored = stored;
})

-- CalcRewards, with the runner that initDistributer has made.
unfoldable pub calc_all_rewards :
    Distributer
    → Setting
    → CalcType
    → (start end sample_height : ℕ) → (inputs : List String) → Stored
    → Answers
    → Run Calculated
unfolding calc_checked_rewards
calc_all_rewards dist s calc_type start end sample_height inputs stored answers =
    refuse (check_start_end_height dist.runner start end calc_type) stored (
      refuse (check_sample_height dist.runner sample_height start end) stored (
        calc_checked_rewards (record dist { sample_height = sample_height }) s calc_type start end
          inputs stored answers))
