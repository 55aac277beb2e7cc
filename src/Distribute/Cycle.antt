-- ===== src/Distribute/Cycle.antt =====
-- distributer/distribute.go, byvolume.go and byliquidity.go: the cycles that rewards are
-- distributed by, on block heights or timestamps.
use anytoken_distribution.Base.{
  ℕ, ◌/◌, ◌%◌, ◌^◌, Option, none, some, List, [], ◌∷◌, Bool, true, false, ◌&&◌, ◌||◌, not, ltb, leb,
  ◌==◌, if◌then◌else◌, add64, sub64, mul64,
}
use anytoken_distribution.Int.{ℤ, pos, ◌*ℤ◌}
use anytoken_distribution.Outcome.{Outcome, returns, panics}

-- calcCurCycleStart, from the node's latest block number or timestamp.
unfoldable pub calc_cur_cycle_start : (start stable cycle_len latest : ℕ) → ℕ
calc_cur_cycle_start start stable cycle_len latest =
    let cycles = sub64 (sub64 latest start) stable / cycle_len in
    add64 start (mul64 cycles cycle_len)

-- calcPrevCycleSttEnd, with the start and cycle length of the measurement in use.
unfoldable pub calc_prev_cycle_stt_end : (start_height cycle_len height : ℕ) → ℕ × ℕ
calc_prev_cycle_stt_end start_height cycle_len height =
    let pre_cycle_end = sub64 height (sub64 height start_height % cycle_len) in
    (sub64 pre_cycle_end cycle_len, pre_cycle_end)

-- `rand.Intn(int(max))` panics unless the int is positive; `random` is the generator that the seed
-- block's hash determines.
unfoldable pub get_rand_number : (ℕ → ℕ) → ℕ → Outcome ℕ
get_rand_number random max = if ltb 0 max && ltb max (2 ^ 63) then returns (random max) else panics

abbrev pub plus_head : ℕ → ℕ → Outcome ℕ → Outcome ℕ
plus_head start head (returns tail) = returns (add64 (add64 start head) tail)
plus_head start head panics = panics

unfoldable pub calc_random_sample : (ℕ → ℕ) → (start end : ℕ) → Outcome ℕ
unfolding get_rand_number
calc_random_sample random start end =
    let head = sub64 end start / 3 in
    let tail = sub64 (sub64 end start) head in plus_head start head (get_rand_number random tail)

pub data CalcType : Type 0 where
  both volume liquid : CalcType

abbrev pub has_volume : CalcType → Bool
has_volume both = true
has_volume volume = true
has_volume liquid = false

abbrev pub has_liquid : CalcType → Bool
has_liquid both = true
has_liquid volume = false
has_liquid liquid = true

pub data RangeError : Type 0 where
  empty_range before_start wrong_cycle wrong_step bad_sample : RangeError

-- The fields of distributeRunner that its cycles go by.
pub record Runner : Type 0 where
  pub start : ℕ
  pub stable : ℕ
  pub by_liquid_cycle_len : ℕ
  pub by_liquid_cycle_rewards : ℤ
  pub by_volume_cycle_len : ℕ
  pub by_volume_cycle_rewards : ℤ
  pub total_volume_cycles : ℕ
  pub total_volume_rewards : ℤ
  pub quick_settle_volume_rewards : Bool
  pub is_archive_mode : Bool

pub data InitError : Type 0 where
  zero_liquid_cycle zero_volume_cycle no_multiple no_exchange : InitError

-- The part of the configuration that the cycles come from.
pub record CycleConfig : Type 0 where
  pub use_time_measurement : Bool
  pub start_timestamp : ℕ
  pub stable_duration : ℕ
  pub by_liquid_cycle_duration : ℕ
  pub by_volume_cycle_duration : ℕ
  pub start_height : ℕ
  pub stable_height : ℕ
  pub by_liquid_cycle : ℕ
  pub by_volume_cycle : ℕ
  pub by_liquid_rewards : ℤ
  pub by_volume_rewards : ℤ
  pub quick_settle_volume_rewards : Bool
  pub archive_mode : Bool

abbrev pub measured : CycleConfig → ℕ → ℕ → ℕ
measured config by_time by_height = if config.use_time_measurement then by_time else by_height

-- Whether some exchange has a liquidity or a trade weight.
unfoldable pub has_weight : List (ℕ × ℕ) → Bool
has_weight [] = false
has_weight ((liquid_weight, trade_weight) ∷ exchanges) =
    ltb 0 liquid_weight || (ltb 0 trade_weight || has_weight exchanges)

-- The error returns of initDistributer.
unfoldable pub init_failure : (liquid_len volume_len : ℕ) → List (ℕ × ℕ) → Option InitError
unfolding has_weight
init_failure liquid_len volume_len exchanges =
    if liquid_len == 0
    then some zero_liquid_cycle
    else if volume_len == 0
    then some zero_volume_cycle
    else if not (liquid_len % volume_len == 0)
    then some no_multiple
    else if has_weight exchanges
    then none
    else some no_exchange

-- initDistributer: the runner, or the error; `exchanges` holds the liquidity and trade weights of
-- the configured exchanges.
unfoldable pub init_distributer : CycleConfig → List (ℕ × ℕ) → Option InitError × Runner
unfolding init_failure
init_distributer config exchanges =
    let liquid_len = measured config config.by_liquid_cycle_duration config.by_liquid_cycle in
    let volume_len = measured config config.by_volume_cycle_duration config.by_volume_cycle in
    let cycles = liquid_len / volume_len in
    let runner : Runner = record {
      start = measured config config.start_timestamp config.start_height;
      stable = measured config config.stable_duration config.stable_height;
      by_liquid_cycle_len = liquid_len;
      by_liquid_cycle_rewards = config.by_liquid_rewards;
      by_volume_cycle_len = volume_len;
      by_volume_cycle_rewards = config.by_volume_rewards;
      total_volume_cycles = cycles;
      total_volume_rewards = config.by_volume_rewards *ℤ pos cycles;
      quick_settle_volume_rewards = config.quick_settle_volume_rewards;
      is_archive_mode = config.archive_mode;
    } in
    (init_failure liquid_len volume_len exchanges, runner)

-- checkStartEndHeight; `none` is the nil error.
unfoldable pub check_start_end_height : Runner → (start end : ℕ) → CalcType → Option RangeError
check_start_end_height runner start end calc_type =
    let by_cycle =
      has_liquid calc_type || (has_volume calc_type && not runner.quick_settle_volume_rewards) in
    let by_step = has_volume calc_type && runner.quick_settle_volume_rewards in
    if leb end start
    then some empty_range
    else if ltb start runner.start
    then some before_start
    else if by_cycle && not (add64 start runner.by_liquid_cycle_len == end)
    then some wrong_cycle
    else if by_step && not (sub64 end start % runner.by_volume_cycle_len == 0)
    then some wrong_step
    else none

unfoldable pub check_sample_height : Runner → (sample start end : ℕ) → Option RangeError
check_sample_height runner sample start end =
    if sample == 0 || not runner.is_archive_mode
    then none
    else if leb start sample && ltb sample end
    then none
    else some bad_sample
