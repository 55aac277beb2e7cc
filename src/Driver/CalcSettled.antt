-- ===== src/Driver/CalcSettled.antt =====
-- calcVolumeRewards: the ranges that rewards are sent for, up to the end or to the first error.
use anytoken_distribution.Base.{
  ℕ, zero, suc, ◌+◌, ◌*◌, ◌≤◌, ◌<◌, ◌≡◌, ◌/◌, refl, sym, ap, ◌∙◌, ◌⊎◌, inl, inr, Option, none, some,
  List, [], ◌∷◌, true, false, ltb, arith, word, Bool-cases, Option-cases, add64, ge→ltb, lt→ltb,
}
use native.Mathlib.Nat.{mul-div_cancel}
use anytoken_distribution.Int.{ℤ, pos, ◌+ℤ◌, ◌*ℤ◌, int_laws, *ℤ_parts}
use anytoken_distribution.Distribute.Cycle.{Runner, volume, check_start_end_height}
use anytoken_distribution.Distribute.Settlement.{IsReady, Joined, checked_whole}
use anytoken_distribution.Driver.Run.{Run, ends, ◌>>=◌}
use anytoken_distribution.Driver.Setting.{Setting}
use anytoken_distribution.Driver.Runner.{Distributer, Answers}
use anytoken_distribution.Driver.Settle.{Settled, settle_range}
use anytoken_distribution.Driver.Settled.{
  high_count, spans_of, SendEnds, AllEnd, AllEnd-here, AllEnd-later, settle_range-ends,
}
use anytoken_distribution.Driver.CalcRewards.{
  CalcError, attempt_error, calc_steps, calc_volume_rewards,
}

-- The rewards of the ranges together.
abbrev pub paid_for : List Settled → ℤ
paid_for [] = pos 0
paid_for (x ∷ settled) = x.rewards +ℤ paid_for settled

-- Each range but the last is sent without an error, and the last ends as the run does.
abbrev pub StopsAt : Option CalcError → List Settled → Type 0
StopsAt failure [] = failure ≡ none
StopsAt failure (x ∷ settled) =
    ((attempt_error x.attempt ≡ failure) × (settled ≡ []))
    ⊎ ((attempt_error x.attempt ≡ none) × StopsAt failure settled)

-- The ranges join from the start; without an error they reach the end, and pay `rewards` for each of
-- the `k` steps.
pub record SettlesTo (rewards : ℤ) (start end k : ℕ) (failure : Option CalcError)
    (settled : List Settled) : Type 0 where
  pub reached : ℕ
  pub joined : Joined start reached (spans_of settled)
  pub inside : reached ≤ end
  pub stops : StopsAt failure settled
  pub completes : failure ≡ none → (reached ≡ end) × (paid_for settled ≡ rewards *ℤ pos k)

-- A step with an error, which is the last.
stop_here :
    (rewards : ℤ) (start next end k : ℕ) (x : Settled) (e : CalcError)
    → x.start ≡ start
    → x.end ≡ next
    → start < next
    → next ≤ end
    → attempt_error x.attempt ≡ some e
    → SettlesTo rewards start end k (some e) (x ∷ [])
stop_here rewards start next end k x e begins closes lt le bad = record {
  reached = next;
  joined = (begins, omega arith, closes);
  inside = le;
  stops = inl (bad, refl);
  completes = λ c. cc;
}

-- A step without one, and the steps after it.
pay_on :
    (rewards : ℤ) (start next end k : ℕ) (x : Settled) (failure : Option CalcError)
    (settled : List Settled)
    → x.start ≡ start
    → x.end ≡ next
    → x.rewards ≡ rewards
    → start < next
    → attempt_error x.attempt ≡ none
    → SettlesTo rewards next end k failure settled
    → SettlesTo rewards start end (suc k) failure (x ∷ settled)
pay_on rewards start next end k x failure settled begins closes pays lt good later = record {
  reached = later.reached;
  joined = (begins, omega arith, rw closes later.joined);
  inside = later.inside;
  stops = inr (good, later.stops);
  completes = λ over. (
    (later.completes over).0,
    rw (pays, (later.completes over).1)
        (omega (int_laws, *ℤ_parts rewards (pos k), *ℤ_parts rewards (pos (suc k)))),
  );
}

-- What a round comes to, by the error of its step.
abbrev after_step :
    Option CalcError
    → Settled
    → Answers
    → Run (Option CalcError × List Settled × Answers)
    → Run (Option CalcError × List Settled × Answers)
after_step failure x answers rest = elim failure [
  | some e ↦ ends (some e, x ∷ [], answers)
  | none ↦ (do (failure, settled, answers') ← rest; ends (failure, x ∷ settled, answers'))
]

-- A round of the loop whose step has an error, and one whose step has none.
calc_steps_stop :
    (fuel : ℕ) (dist : Distributer) (s : Setting) (start end : ℕ) (x : Settled) (e : CalcError)
    (answers answers' : Answers)
    → let next = add64 start dist.runner.by_volume_cycle_len in
      ltb start end ≡ true
      → settle_range dist s dist.runner.by_volume_cycle_rewards start next answers
        ≡ ends (x, answers')
      → attempt_error x.attempt ≡ some e
      → calc_steps (suc fuel) dist s start end answers ≡ ends (some e, x ∷ [], answers')
unfolding calc_steps
calc_steps_stop fuel dist s start end x e answers answers' on sent bad =
    rw (on, sent)
      (ap
        (λ (o : Option CalcError).
          after_step o x answers'
            (calc_steps fuel dist s (add64 start dist.runner.by_volume_cycle_len) end answers'))
        bad)

calc_steps_on :
    (fuel : ℕ) (dist : Distributer) (s : Setting) (start end : ℕ) (x : Settled)
    (failure : Option CalcError) (settled : List Settled) (answers answers1 answers' : Answers)
    → let next = add64 start dist.runner.by_volume_cycle_len in
      ltb start end ≡ true
      → settle_range dist s dist.runner.by_volume_cycle_rewards start next answers
        ≡ ends (x, answers1)
      → attempt_error x.attempt ≡ none
      → calc_steps fuel dist s next end answers1 ≡ ends (failure, settled, answers')
      → calc_steps (suc fuel) dist s start end answers ≡ ends (failure, x ∷ settled, answers')
unfolding calc_steps
calc_steps_on fuel dist s start end x failure settled answers answers1 answers' on sent good run =
    rw (on, sent)
      (ap
          (λ (o : Option CalcError).
            after_step o x answers1
              (calc_steps fuel dist s (add64 start dist.runner.by_volume_cycle_len) end answers1))
          good
        ∙ rw run refl)

calc_steps-SettlesTo :
    (fuel k : ℕ) (dist : Distributer) (s : Setting) (start end bound : ℕ) (answers : Answers)
    → AllEnd dist s start k
    → 0 < dist.runner.by_volume_cycle_len
    → end ≡ start + k * dist.runner.by_volume_cycle_len
    → end + dist.runner.stable ≤ bound
    → bound < word
    → end + dist.runner.by_volume_cycle_len < word
    → k < fuel
    → k ≤ high_count s.src.use_time_measurement bound answers
    → (failure : Option CalcError) × (settled : List Settled) × (answers' : Answers) × (calc_steps
          fuel dist s start end answers
        ≡ ends (failure, settled, answers'))
      × SettlesTo dist.runner.by_volume_cycle_rewards start end k failure settled
unfolding calc_steps
calc_steps-SettlesTo zero k dist s start end bound answers all positive e le small room lt h =
    absurd (omega arith)
calc_steps-SettlesTo (suc fuel) zero dist s start end bound answers all positive e le small room lt
      h =
    let over : ltb start end ≡ false = ge→ltb start end (omega arith) in
    (
      none,
      [],
      answers,
      rw over refl,
      record {
        reached = start;
        joined = refl;
        inside = omega arith;
        stops = refl;
        completes = λ _.
            (omega arith, omega (int_laws, *ℤ_parts dist.runner.by_volume_cycle_rewards (pos 0)));
      },
    )
calc_steps-SettlesTo (suc fuel) (suc k) dist s start end bound answers all positive e le small room
      lt h =
    let rewards = dist.runner.by_volume_cycle_rewards in
    let step = dist.runner.by_volume_cycle_len in
    let next = add64 start step in
    let stepped : next ≡ start + step = omega arith in
    let left : end ≡ next + k * step = omega (arith, stepped) in
    let on : ltb start end ≡ true = lt→ltb start end (omega (arith, stepped)) in
    let (x, answers1, sent, begins, closes, pays, high) =
      settle_range-ends dist s rewards start next bound k answers
        (AllEnd-here dist s start next k stepped all) (omega arith) small h in
    elim (Option-cases (attempt_error x.attempt)) [
      | inr (err, bad) ↦ (
        some err,
        x ∷ [],
        answers1,
        calc_steps_stop fuel dist s start end x err answers answers1 on sent bad,
        stop_here rewards start next end (suc k) x err begins closes (omega arith) (omega arith)
            bad,
      )
      | inl good ↦
          let (failure, settled, answers', run, settles) =
            calc_steps-SettlesTo fuel k dist s next end bound answers1
              (AllEnd-later dist s start next k stepped all) positive left le small room
              (omega arith) high in
          (
            failure,
            x ∷ settled,
            answers',
            calc_steps_on fuel dist s start end x failure settled answers answers1 answers' on sent
                good run,
            pay_on rewards start next end k x failure settled begins closes pays (omega arith) good
                settles,
          )
    ]

cycles_lem :
    (runner : Runner) (start end k : ℕ)
    → IsReady runner
    → start + runner.by_liquid_cycle_len ≡ end
    → end ≡ start + k * runner.by_volume_cycle_len
    → runner.total_volume_cycles ≡ k
cycles_lem runner start end k ready cycle e =
    let len = runner.by_volume_cycle_len in
    let same : runner.total_volume_cycles * len ≡ k * len = omega (arith, ready.whole) in
    sym (mul-div_cancel runner.total_volume_cycles ready.volume_len_pos)
    ∙ ap (λ (m : ℕ). m / len) same
    ∙ mul-div_cancel k ready.volume_len_pos

-- A cycle that is sent as a whole.
pay_whole :
    (rewards : ℤ) (start end k : ℕ) (x : Settled)
    → x.start ≡ start
    → x.end ≡ end
    → x.rewards ≡ rewards *ℤ pos k
    → start < end
    → SettlesTo rewards start end k (attempt_error x.attempt) (x ∷ [])
pay_whole rewards start end k x begins closes pays lt = record {
  reached = end;
  joined = (begins, omega arith, closes);
  inside = omega arith;
  stops = inl (refl, refl);
  completes = λ _. (refl, rw pays (omega int_laws));
}

-- The calls of sendVolumeRewards that the runner makes for a cycle of `k` steps come to an end, in
-- whatever way: one for each step, or one for the cycle.
pub record CallsEnd (dist : Distributer) (s : Setting) (start end k : ℕ) : Type 0 where
  pub steps : dist.runner.quick_settle_volume_rewards ≡ true → AllEnd dist s start k
  pub whole :
      dist.runner.quick_settle_volume_rewards ≡ false
      → SendEnds dist s dist.runner.total_volume_rewards start end

-- calcVolumeRewards, for a runner with positive cycle lengths that fit, and a range of `k` steps,
-- not none, that checkStartEndHeight accepts for volume rewards, with heights that do not overflow
-- and fuel for one round more, where each call of sendVolumeRewards ends, in whatever way, and the
-- database comes to report a block above the end and the stable distance as often as there are
-- steps: in quick steps or in one, it ends; the ranges that it sends rewards for follow one another
-- from the start, and none goes beyond the end; each but the last is sent without an error, and the
-- error of the last, if it has one, is what it returns; and without an error they reach the end, and
-- together are paid the reward of a volume cycle times `k`.
pub calc_volume_rewards-SettlesTo :
    (k : ℕ) (dist : Distributer) (s : Setting) (start end bound : ℕ) (answers : Answers)
    → IsReady dist.runner
    → check_start_end_height dist.runner start end volume ≡ none
    → CallsEnd dist s start end k
    → end ≡ start + k * dist.runner.by_volume_cycle_len
    → end + dist.runner.stable ≤ bound
    → bound < word
    → end + dist.runner.by_volume_cycle_len < word
    → start + dist.runner.by_liquid_cycle_len < word
    → 0 < k
    → k < s.fuel
    → k ≤ high_count s.src.use_time_measurement bound answers
    → (failure : Option CalcError) × (settled : List Settled) × (answers' : Answers)
      × (calc_volume_rewards dist s start end answers ≡ ends (failure, settled, answers'))
      × SettlesTo dist.runner.by_volume_cycle_rewards start end k failure settled
unfolding calc_volume_rewards
calc_volume_rewards-SettlesTo k dist s start end bound answers ready checked calls e le small room
      room' some_step lt h =
    elim (Bool-cases dist.runner.quick_settle_volume_rewards) [
      | inl quick ↦
          let (failure, settled, answers', run, settles) =
            calc_steps-SettlesTo s.fuel k dist s start end bound answers (calls.steps quick)
              ready.volume_len_pos e le small room lt h in
          (failure, settled, answers', simp quick run, settles)
      | inr whole ↦
          let (below, cycle) = checked_whole dist.runner start end whole room' checked in
          let (x, answers', sent, begins, closes, pays, _) =
            settle_range-ends dist s dist.runner.total_volume_rewards start end bound 0 answers
              (calls.whole whole) le small (omega arith) in
          let count = cycles_lem dist.runner start end k ready cycle e in
          (
            attempt_error x.attempt,
            x ∷ [],
            answers',
            simp (whole, sent) refl,
            pay_whole dist.runner.by_volume_cycle_rewards start end k x begins closes
                (pays
                  ∙ ready.rewards
                  ∙ ap (λ (m : ℕ). dist.runner.by_volume_cycle_rewards *ℤ pos m) count)
                below,
          )
    ]
