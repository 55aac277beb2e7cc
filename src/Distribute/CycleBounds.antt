-- ===== src/Distribute/CycleBounds.antt =====
-- Where the cycles lie: the current and the previous cycle, and the sample in a cycle.
use anytoken_distribution.Base.{
  ℕ, le-div-mul, ◌+◌, ◌-◌, ◌*◌, ◌/◌, ◌^◌, ◌≤◌, ◌<◌, ◌≡◌, ap, sub64, word, arith, lt→ltb,
}
use native.Mathlib.Nat.{div-mul-le_self, lt-div-mul-add, div-add-mod', mod-lt}
use anytoken_distribution.Outcome.{returns}
use anytoken_distribution.Distribute.Cycle.{
  calc_cur_cycle_start, calc_prev_cycle_stt_end, calc_random_sample,
}

-- calcCurCycleStart, once the chain is as far as the start plus the stable distance, for a cycle
-- length that is not zero: the result is a whole number of cycles after the start, and the latest
-- stable block lies in that cycle.
pub calc_cur_cycle_start_bounds :
    (start stable cycle_len latest : ℕ)
    → 0 < cycle_len
    → start + stable ≤ latest
    → latest < word
    → let cur = calc_cur_cycle_start start stable cycle_len latest in
      ((k : ℕ) × (cur ≡ start + k * cycle_len))
      × (cur + stable ≤ latest)
      × (latest < cur + cycle_len + stable)
unfolding calc_cur_cycle_start
calc_cur_cycle_start_bounds start stable cycle_len latest h far small =
    let passed : sub64 (sub64 latest start) stable ≡ latest - start - stable = omega arith in
    let span = latest - start - stable in
    let under = div-mul-le_self span cycle_len in
    let over = lt-div-mul-add {a = span} h in
    rw passed
      ((span / cycle_len, omega (arith, under)), omega (arith, under), omega (arith, under, over))

-- calcPrevCycleSttEnd, for a height at least one cycle after the start: the previous cycle is one
-- cycle long, begins at or after the start, ends a whole number of cycles after the start, and
-- the height lies in the cycle that follows it.
pub calc_prev_cycle_stt_end_bounds :
    (start_height cycle_len height : ℕ)
    → 0 < cycle_len
    → start_height + cycle_len ≤ height
    → height < word
    → let (pre_start, pre_end) = calc_prev_cycle_stt_end start_height cycle_len height in
      (pre_start + cycle_len ≡ pre_end)
      × (start_height ≤ pre_start)
      × ((k : ℕ) × (pre_end ≡ start_height + k * cycle_len))
      × (pre_end ≤ height)
      × (height < pre_end + cycle_len)
unfolding calc_prev_cycle_stt_end
calc_prev_cycle_stt_end_bounds start_height cycle_len height h far small =
    let passed : sub64 height start_height ≡ height - start_height = omega arith in
    let span = height - start_height in
    let whole = div-add-mod' span cycle_len in
    let rest = mod-lt span h in
    let one = le-div-mul span cycle_len h (omega arith) in
    rw passed (
      omega (arith, whole, rest, one),
      omega (arith, whole, rest, one),
      (span / cycle_len, omega (arith, whole, rest)),
      omega (arith, whole, rest),
      omega (arith, whole, rest),
    )

-- CalcRandomSample, for a cycle of at least one and fewer than 2^63 blocks and a generator below
-- its bound: it returns a sample in the last two thirds of the cycle.
pub calc_random_sample_bounds :
    (random : ℕ → ℕ) (start end : ℕ)
    → ((max : ℕ) → 0 < max → random max < max)
    → start < end
    → end < word
    → end - start < 2 ^ 63
    → (sample : ℕ) × (calc_random_sample random start end ≡ returns sample)
      × (start + (end - start) / 3 ≤ sample)
      × (sample < end)
unfolding calc_random_sample
calc_random_sample_bounds random start end below h small short =
    let span : sub64 end start ≡ end - start = omega arith in
    let head = (end - start) / 3 in
    let tail = end - start - head in
    let rest : sub64 (end - start) head ≡ tail = omega arith in
    let lt = below tail (omega arith) in
    (
      start + head + random tail,
      rw (span, rest, lt→ltb 0 tail (omega arith), lt→ltb tail (2 ^ 63) (omega arith))
          (ap returns (omega (arith, lt))),
      omega arith,
      omega (arith, lt),
    )
