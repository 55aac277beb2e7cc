-- ===== src/Volumes/StepLoop.antt =====
-- The loop of GetAccountsAndRewardsFromDB: the rewards of its steps add up.
use anytoken_distribution.Base.{
  ℕ, zero, suc, ◌+◌, ◌*◌, ◌<◌, ◌≡◌, sym, ap, ◌∙◌, refl, String, some, List, [], ◌∷◌, ◌++◌, All,
  length, Bool, true, false, if◌then◌else◌, arith, word, append_nil, append_assoc, lt→ltb, ge→ltb,
  add64,
}
use anytoken_distribution.Int.{ℤ, pos, ◌+ℤ◌, int_laws}
use anytoken_distribution.Outcome.{Outcome, returns, panics, ◌>>=◌}
use anytoken_distribution.Reward.Stats.{AccountStat}
use anytoken_distribution.Reward.Fresh.{granted}
use anytoken_distribution.Receipts.Records.{MgoVolumeHistory}
use anytoken_distribution.Volumes.Find.{find_account_volumes}
use anytoken_distribution.Volumes.Collect.{AreSingle}
use anytoken_distribution.Volumes.Found.{Stores, find_account_volumes-total}
use anytoken_distribution.Volumes.Rewards.{
  Source, rewarded, get_single_cycle_rewards_from_db, close_step, reward_steps,
}
use anytoken_distribution.Volumes.Paid.{IsPaid}
use anytoken_distribution.Volumes.Steps.{Steps, missed_steps, is_vacant, close-Closes}

suc_mul : (m q : ℕ) → pos (suc m * q) ≡ pos (m * q) +ℤ pos q
suc_mul m q = omega int_laws

regroup : (a b c : ℤ) → a +ℤ (b +ℤ c) ≡ (a +ℤ b) +ℤ c
regroup a b c = omega int_laws

swap_last : (a b c : ℤ) → (a +ℤ b) +ℤ c ≡ a +ℤ (c +ℤ b)
swap_last a b c = omega int_laws

-- One more step before the others.
steps_sum :
    (n r : ℕ) (vacant : Bool) (before mid after : List AccountStat) (start : ℕ) (later : List ℕ)
    → (granted mid ≡ (if vacant then granted before else granted before +ℤ pos (suc r)))
    → (granted after +ℤ pos (length later * suc r) ≡ granted mid +ℤ pos (n * suc r))
    → granted after +ℤ pos (length (if vacant then start ∷ later else later) * suc r)
      ≡ granted before +ℤ pos (suc n * suc r)
steps_sum n r true before mid after start later e h =
    rw (suc_mul (length later) (suc r), suc_mul n (suc r))
      (regroup (granted after) (pos (length later * suc r)) (pos (suc r))
        ∙ ap (λ x. x +ℤ pos (suc r)) h
        ∙ sym (regroup (granted mid) (pos (n * suc r)) (pos (suc r)))
        ∙ ap (λ x. x +ℤ (pos (n * suc r) +ℤ pos (suc r))) e)
steps_sum n r false before mid after start later e h = rw (suc_mul n (suc r)) (
    h
    ∙ ap (λ x. x +ℤ pos (n * suc r)) e
    ∙ swap_last (granted before) (pos (suc r)) (pos (n * suc r)))

starts_append :
    (vacant : Bool) (starts : List ℕ) (start : ℕ) (later : List ℕ)
    → (if vacant then starts ++ start ∷ [] else starts) ++ later
      ≡ starts ++ (if vacant then start ∷ later else later)
starts_append true starts start later = append_assoc starts (start ∷ []) later
starts_append false starts start later = refl

-- Two steps of a run in a row.
run_next :
    {A B C : Type 0} (m : Outcome A) (f : A → Outcome B) (g : B → Outcome C) {b : B} {c : C}
    → (m >>= f) ≡ returns b
    → g b ≡ returns c
    → (m >>= λ a. f a >>= g) ≡ returns c
run_next (returns a) f g e h = rw e h
run_next panics f g e h = cc

pub reward_steps-Steps :
    (src : Source) (stored : List MgoVolumeHistory) (exchange : String)
    (r fuel start end step n : ℕ) (fins : List AccountStat) (starts : List ℕ)
    → Stores stored src.db
    → n < fuel
    → end ≡ start + n * suc step
    → end < word
    → All IsPaid fins
    → AreSingle fins
    → Steps src exchange r start
        (suc step)
        n
        fins
        starts
        (reward_steps fuel src (pos (suc r)) exchange start end (suc step) (fins, starts))
unfolding reward_steps get_single_cycle_rewards_from_db
reward_steps-Steps src stored exchange r zero start end step n fins starts stores less e small all
      single =
    absurd (omega arith)
reward_steps-Steps src stored exchange r (suc fuel) start end step zero fins starts stores less e
      small all single =
    (
      fins,
      rw (ge→ltb start end (omega (arith, e)), append_nil starts) refl,
      all,
      single,
      omega int_laws,
    )
reward_steps-Steps src stored exchange r (suc fuel) start end step (suc n) fins starts stores less e
      small all single =
    let later : end ≡ start + suc step + n * suc step = omega (arith, e) in
    let next : add64 start (suc step) ≡ start + suc step = omega (arith, later, small) in
    let use_time = src.use_time_measurement in
    let stats = find_account_volumes src.ex src.db exchange start (start + suc step) use_time in
    let missed = missed_steps src exchange (start + suc step) (suc step) n in
    let fresh =
      (find_account_volumes-total src.ex src.db stored exchange start (start + suc step) use_time
        stores).0 in
    let (mid, closed, all', single', first) =
      close-Closes src r start (start + suc step) stats fins starts fresh all single in
    let starts' = if is_vacant stats then starts ++ start ∷ [] else starts in
    let (fins', run, alls, singles, sums) =
      reward_steps-Steps src stored exchange r fuel (start + suc step) end step n mid starts' stores
        (omega (arith, less)) later small all' single' in
    (
      fins',
      rw (lt→ltb start end (omega (arith, later)), next)
          (run_next (rewarded src (some (pos (suc r))) (start + suc step) stats)
              (λ s. close_step start s (fins, starts))
              (λ x.
                reward_steps fuel src (pos (suc r)) exchange (start + suc step) end (suc step) x)
              closed run
            ∙ ap (λ xs. returns (some (fins', xs)))
                (starts_append (is_vacant stats) starts start missed)),
      alls,
      singles,
      steps_sum n r (is_vacant stats) fins mid fins' start missed first sums,
    )
