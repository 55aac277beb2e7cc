-- ===== src/Distribute/Settlement.antt =====
-- What initDistributer makes of a configuration, and the ranges that checkStartEndHeight lets pass.
use anytoken_distribution.Base.{
  ℕ, ◌+◌, ◌-◌, ◌*◌, ◌/◌, ◌%◌, ◌<◌, ◌≡◌, refl, none, List, [], ◌∷◌, true, false, sub64, word, arith,
}
use native.Mathlib.Nat.{div-add-mod'}
use anytoken_distribution.Distribute.Cycle.{
  check_start_end_height, Runner, CycleConfig, measured, init_distributer, init_failure, volume,
}
use anytoken_distribution.Int.{pos, ◌*ℤ◌}

-- Cycles [x, y) that are not empty and follow one another from `a` to `b`.
abbrev pub Joined : (a b : ℕ) → List (ℕ × ℕ) → Type 0
Joined a b [] = a ≡ b
Joined a b ((x, y) ∷ cycles) = (x ≡ a) × (x < y) × Joined y b cycles

-- What a runner that initDistributer has made satisfies.
pub record IsReady (runner : Runner) : Type 0 where
  pub volume_len_pos : 0 < runner.by_volume_cycle_len
  pub liquid_len_pos : 0 < runner.by_liquid_cycle_len
  pub whole : runner.by_liquid_cycle_len ≡ runner.total_volume_cycles * runner.by_volume_cycle_len
  pub rewards :
      runner.total_volume_rewards ≡ runner.by_volume_cycle_rewards *ℤ pos runner.total_volume_cycles

pub multiple : (a b : ℕ) → a % b ≡ 0 → a ≡ a / b * b
multiple a b h = omega (arith, div-add-mod' a b)

init_failure-none :
    (liquid_len volume_len : ℕ) (exchanges : List (ℕ × ℕ))
    → init_failure liquid_len volume_len exchanges ≡ none
    → (0 < liquid_len) × (0 < volume_len) × (liquid_len % volume_len ≡ 0)
unfolding init_failure
init_failure-none liquid_len volume_len exchanges e = ground arith

-- A runner that initDistributer returns without an error has positive cycle lengths, its liquidity
-- cycle is a whole number of volume cycles, and its total volume reward is the reward of a volume
-- cycle times their number.
pub init_distributer-IsReady :
    (config : CycleConfig) (exchanges : List (ℕ × ℕ))
    → (init_distributer config exchanges).0 ≡ none
    → IsReady (init_distributer config exchanges).1
unfolding init_distributer
init_distributer-IsReady config exchanges e =
    let liquid_len = measured config config.by_liquid_cycle_duration config.by_liquid_cycle in
    let volume_len = measured config config.by_volume_cycle_duration config.by_volume_cycle in
    let (liquid_pos, volume_pos, even) = init_failure-none liquid_len volume_len exchanges e in
    record {
      volume_len_pos = volume_pos;
      liquid_len_pos = liquid_pos;
      whole = multiple liquid_len volume_len even;
      rewards = refl;
    }

pub checked_quick :
    (runner : Runner) (start end : ℕ)
    → runner.quick_settle_volume_rewards ≡ true
    → end < word
    → check_start_end_height runner start end volume ≡ none
    → (start < end) × ((end - start) % runner.by_volume_cycle_len ≡ 0)
unfolding check_start_end_height
checked_quick runner start end quick small e =
    let span : start < end → sub64 end start ≡ end - start = λ h. omega arith in
    ground (arith, span)

pub checked_whole :
    (runner : Runner) (start end : ℕ)
    → runner.quick_settle_volume_rewards ≡ false
    → start + runner.by_liquid_cycle_len < word
    → check_start_end_height runner start end volume ≡ none
    → (start < end) × (start + runner.by_liquid_cycle_len ≡ end)
unfolding check_start_end_height
checked_whole runner start end quick small e = ground arith
