-- ===== src/Driver/Settled.antt =====
-- settleVolumeRewards in quick steps: the steps that rewards are sent for.
use anytoken_distribution.Base.{
  ℕ, zero, suc, ◌+◌, ◌*◌, ◌≤◌, ◌<◌, ◌≡◌, refl, subst, ◌⊎◌, inl, inr, none, some, List, [], ◌∷◌, map,
  All, Bool, true, false, leb, ltb, arith, word, Bool-cases, add64, ltb→lt, ltb→ge, ge→ltb, lt→ltb,
  if◌then◌else◌,
}
use anytoken_distribution.Int.{ℤ}
use anytoken_distribution.Distribute.Settlement.{Joined}
use anytoken_distribution.Driver.Run.{ends}
use anytoken_distribution.Driver.Setting.{Setting}
use anytoken_distribution.Driver.Runner.{
  Distributer, Attempt, Answers, measure, wait_cycle_end, send_volume_rewards,
}
use anytoken_distribution.Driver.Settle.{Settled, settle_range, settle_steps, settle_volume_rewards}

-- How many of the answers are at `bound` or above.
abbrev pub high_count : Bool → ℕ → Answers → ℕ
high_count use_time bound [] = 0
high_count use_time bound (none ∷ answers) = high_count use_time bound answers
high_count use_time bound (some info ∷ answers) =
    if leb bound (measure use_time info)
    then suc (high_count use_time bound answers)
    else high_count use_time bound answers

-- A wait uses up at most one of the high answers.
pub wait_cycle_end-high :
    (use_time : Bool) (cycle_end stable bound k : ℕ) (answers : Answers)
    → cycle_end + stable ≤ bound
    → bound < word
    → suc k ≤ high_count use_time bound answers
    → (answers' : Answers) × (wait_cycle_end use_time cycle_end stable answers ≡ ends answers')
      × (k ≤ high_count use_time bound answers')
unfolding wait_cycle_end
wait_cycle_end-high use_time cycle_end stable bound k [] le small h = absurd (omega arith)
wait_cycle_end-high use_time cycle_end stable bound k (none ∷ answers) le small h =
    wait_cycle_end-high use_time cycle_end stable bound k answers le small h
wait_cycle_end-high use_time cycle_end stable bound k (some info ∷ answers) le small h =
    let now = measure use_time info in
    let same : add64 cycle_end stable ≡ cycle_end + stable = omega arith in
    elim (Bool-cases (leb (add64 cycle_end stable) now)) [
      | inl reached ↦ (answers, rw reached refl, ground arith)
      | inr early ↦
          let low : leb bound now ≡ false = ground (arith, same) in
          let (answers', run, left) =
            wait_cycle_end-high use_time cycle_end stable bound k answers le small (rw low at h) in
          (answers', rw early run, left)
    ]

abbrev pub spans_of : List Settled → List (ℕ × ℕ)
spans_of = map (λ x. (x.start, x.end))

-- A step that does not end before the latest block, and is paid the reward of a step.
pub record IsDue (rewards : ℤ) (latest : ℕ) (x : Settled) : Type 0 where
  pub due : latest ≤ x.end
  pub paid : x.rewards ≡ rewards

-- The steps that are sent join from some step's start, the first not to end before the latest block.
abbrev pub Resumes : ℤ → (latest start end : ℕ) → List Settled → Type 0
Resumes rewards latest start end settled =
    (a : ℕ) × (start ≤ a)
    × ((a ≡ start) ⊎ (a < latest))
    × Joined a end (spans_of settled)
    × All (IsDue rewards latest) settled

-- sendVolumeRewards comes to an end, in whatever way.
abbrev pub SendEnds : Distributer → Setting → ℤ → (start end : ℕ) → Type 0
SendEnds dist s rewards start end =
    (attempt : Attempt) × (send_volume_rewards dist s rewards start end ≡ ends attempt)

-- So does each call for one of the `k` steps from `start`.
abbrev pub AllEnd : Distributer → Setting → (start k : ℕ) → Type 0
AllEnd dist s start k =
    (j x y : ℕ)
    → j < k
    → x ≡ start + j * dist.runner.by_volume_cycle_len
    → y ≡ x + dist.runner.by_volume_cycle_len
    → SendEnds dist s dist.runner.by_volume_cycle_rewards x y

pub AllEnd-here :
    (dist : Distributer) (s : Setting) (start next k : ℕ)
    → next ≡ start + dist.runner.by_volume_cycle_len
    → AllEnd dist s start (suc k)
    → SendEnds dist s dist.runner.by_volume_cycle_rewards start next
AllEnd-here dist s start next k stepped all = all 0 start next (omega arith) (omega arith) stepped

pub AllEnd-later :
    (dist : Distributer) (s : Setting) (start next k : ℕ)
    → next ≡ start + dist.runner.by_volume_cycle_len
    → AllEnd dist s start (suc k)
    → AllEnd dist s next k
AllEnd-later dist s start next k stepped all j x y lt hx hy =
    all (suc j) x y (omega arith) (omega (arith, hx, stepped)) hy

pub settle_range-ends :
    (dist : Distributer) (s : Setting) (rewards : ℤ) (start end bound k : ℕ) (answers : Answers)
    → SendEnds dist s rewards start end
    → end + dist.runner.stable ≤ bound
    → bound < word
    → suc k ≤ high_count s.src.use_time_measurement bound answers
    → (x : Settled) × (answers' : Answers) × (settle_range dist s rewards start end answers
        ≡ ends (x, answers'))
      × (x.start ≡ start)
      × (x.end ≡ end)
      × (x.rewards ≡ rewards)
      × (k ≤ high_count s.src.use_time_measurement bound answers')
unfolding settle_range
settle_range-ends dist s rewards start end bound k answers all le small h =
    let (answers', waited, left) =
      wait_cycle_end-high s.src.use_time_measurement end dist.runner.stable bound k answers le small
        h in
    let (attempt, run) = all in
    (
      record { start = start; end = end; rewards = rewards; attempt = attempt },
      answers',
      rw (waited, run) refl,
      refl,
      refl,
      refl,
      left,
    )

-- A step that is due, and the steps after it.
resume_here :
    (rewards : ℤ) (latest start next end : ℕ) (x : Settled) (rest : List Settled)
    → x.start ≡ start
    → x.end ≡ next
    → x.rewards ≡ rewards
    → start < next
    → latest ≤ next
    → Resumes rewards latest next end rest
    → Resumes rewards latest start end (x ∷ rest)
resume_here rewards latest start next end x rest begins closes paid lt due
      (a, above, first, joined, all) =
    let same : a ≡ next = elim first [ inl e ↦ e | inr low ↦ absurd (omega arith) ] in
    (
      start,
      omega arith,
      inl refl,
      (begins, omega arith, rw closes (subst (λ b. Joined b end (spans_of rest)) same joined)),
      (record { due = omega arith; paid = paid }, all),
    )

settle_steps-Resumes :
    (fuel k : ℕ) (dist : Distributer) (s : Setting) (latest start end bound : ℕ) (answers : Answers)
    → AllEnd dist s start k
    → 0 < dist.runner.by_volume_cycle_len
    → end ≡ start + k * dist.runner.by_volume_cycle_len
    → end + dist.runner.stable ≤ bound
    → bound < word
    → end + dist.runner.by_volume_cycle_len < word
    → k < fuel
    → k ≤ high_count s.src.use_time_measurement bound answers
    → (settled : List Settled) × (answers' : Answers) × (settle_steps fuel dist s latest start end
          answers
        ≡ ends (settled, answers'))
      × Resumes dist.runner.by_volume_cycle_rewards latest start end settled
unfolding settle_steps
settle_steps-Resumes zero k dist s latest start end bound answers all positive e le small room lt
      h =
    absurd (omega arith)
settle_steps-Resumes (suc fuel) zero dist s latest start end bound answers all positive e le small
      room lt h =
    let over : ltb start end ≡ false = ge→ltb start end (omega arith) in
    ([], answers, rw over refl, (start, omega arith, inl refl, omega arith, tt))
settle_steps-Resumes (suc fuel) (suc k) dist s latest start end bound answers all positive e le
      small room lt h =
    let step = dist.runner.by_volume_cycle_len in
    let next = add64 start step in
    let stepped : next ≡ start + step = omega arith in
    let left : end ≡ next + k * step = omega (arith, stepped) in
    let later = AllEnd-later dist s start next k stepped all in
    let on : ltb start end ≡ true = lt→ltb start end (omega (arith, stepped)) in
    elim (Bool-cases (ltb next latest)) [
      | inl past ↦
          let (settled, answers', run, (a, above, first, joined, due)) =
            settle_steps-Resumes fuel k dist s latest next end bound answers later positive left le
              small room (omega arith) (omega arith) in
          let past_lt : next < latest = ltb→lt next latest past in
          let low : a < latest = elim first [ inl same ↦ omega arith | inr low ↦ low ] in
          (settled, answers', rw (on, past) run, (a, omega arith, inr low, joined, due))
      | inr due ↦
          let (x, answers1, sent, begins, closes, paid, high) =
            settle_range-ends dist s dist.runner.by_volume_cycle_rewards start next bound k answers
              (AllEnd-here dist s start next k stepped all) (omega arith) small h in
          let (settled, answers', run, resumes) =
            settle_steps-Resumes fuel k dist s latest next end bound answers1 later positive left le
              small room (omega arith) high in
          (
            x ∷ settled,
            answers',
            rw (on, due, sent, run) refl,
            resume_here dist.runner.by_volume_cycle_rewards latest start next end x settled begins
                closes paid (omega arith) (ltb→ge next latest due) resumes,
          )
    ]

-- settleVolumeRewards in quick steps, for a cycle of `k` steps that fill it, with heights that do not
-- overflow and fuel for one round more, where sendVolumeRewards ends for each of the steps, in
-- whatever way, and the database comes to report a block above the end of the cycle and the stable distance as
-- often as there are steps: it ends; the steps that it sends rewards for follow one another without
-- gap or overlap up to the end of the cycle, each with the reward of a step, and none ends before
-- the latest block; and the first of them is the first step of the cycle, or begins below the latest
-- block: the steps before are passed over for good.
pub settle_volume_rewards-Resumes :
    (k : ℕ) (dist : Distributer) (s : Setting) (latest start end bound : ℕ) (answers : Answers)
    → dist.runner.quick_settle_volume_rewards ≡ true
    → AllEnd dist s start k
    → 0 < dist.runner.by_volume_cycle_len
    → end ≡ start + k * dist.runner.by_volume_cycle_len
    → end + dist.runner.stable ≤ bound
    → bound < word
    → end + dist.runner.by_volume_cycle_len < word
    → k < s.fuel
    → k ≤ high_count s.src.use_time_measurement bound answers
    → (settled : List Settled) × (answers' : Answers) × (settle_volume_rewards dist s latest start
          end answers
        ≡ ends (settled, answers'))
      × Resumes dist.runner.by_volume_cycle_rewards latest start end settled
unfolding settle_volume_rewards
settle_volume_rewards-Resumes k dist s latest start end bound answers quick all positive e le small
      room lt h =
    let (settled, answers', run, resumes) =
      settle_steps-Resumes s.fuel k dist s latest start end bound answers all positive e le small
        room lt h in
    (settled, answers', simp quick run, resumes)
