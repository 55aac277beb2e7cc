-- ===== src/Driver/VolumePaid.antt =====
-- ByVolume as a whole: what it sends adds up to the total.
use anytoken_distribution.Base.{
  ℕ, zero, suc, ◌+◌, ◌-◌, ◌*◌, ◌<◌, ◌≡◌, refl, sym, ap, ◌∙◌, String, Option, none, some, List, [],
  ◌∷◌, map, length, All, true, false, arith, word, false, ◌==◌, ==_iff, gt→leb,
}
use anytoken_distribution.Int.{ℤ, pos, ◌≤ℤ◌, ◌+ℤ◌, is_nonpositive, sum, int_laws, *ℤ_parts}
use anytoken_distribution.Outcome.{returns}
use anytoken_distribution.Reward.Stats.{AccountStat, calc_rewards_in_batch}
use anytoken_distribution.Reward.Slices.{count_all, divide_rewards_nonneg}
use anytoken_distribution.Distribute.Options.{by_volume, DistOption, check_and_init}
use anytoken_distribution.Distribute.Checked.{check_and_init-IsChecked}
use anytoken_distribution.Distribute.ByVolume.{
  divide_volume_rewards_by_percentage, divide_volume_rewards_by_percentage_exact, sum-map-pos,
}
use anytoken_distribution.Distribute.NoVolumes.{nothing_seen}
use anytoken_distribution.Distribute.Nonces.{total_value, HasRoom}
use anytoken_distribution.Driver.Run.{ends, >>=-eq-ends, if_complete-ends}
use anytoken_distribution.Driver.Setting.{Setting, addresses_of}
use anytoken_distribution.Driver.Accounts.{get_accounts_and_rewards}
use anytoken_distribution.Driver.Dispatch.{DispatchError, Dispatched, sender_of, dispatch_rewards}
use anytoken_distribution.Driver.Dispatched.{
  IsDispatched, all_sent, total_sended, total_dust, total_sended-split, dispatch_rewards-Totals,
}
use anytoken_distribution.Driver.Owed.{PaysAll, dispatch_rewards-PaysAll}
use anytoken_distribution.Driver.Granted.{
  IsEndowed, kept, calc_rewards_in_batch-regranted, payable_total-granted,
}
use anytoken_distribution.Driver.Volume.{
  kept_back, total_reward, pay_volumes, divide_volume_rewards, volume_accounts, by_volume_rewards,
}

map-pos-nonneg : (weights : List ℕ) → All (λ share. pos 0 ≤ℤ share) (map pos weights)
map-pos-nonneg [] = tt
map-pos-nonneg (w ∷ weights) = (omega arith, map-pos-nonneg weights)

percentage_nonneg :
    (t : ℕ) (weights : List ℕ)
    → 0 < length weights
    → All (λ w. 0 < w) weights
    → All (λ r. pos 0 ≤ℤ r) (divide_volume_rewards_by_percentage (pos t) weights)
unfolding divide_volume_rewards_by_percentage
percentage_nonneg t [] some_weight positive = absurd (omega arith)
percentage_nonneg t (w ∷ []) some_weight positive = (omega arith, tt)
percentage_nonneg t (w ∷ v ∷ weights) some_weight positive =
    divide_rewards_nonneg t (map pos (w ∷ v ∷ weights)) (map-pos-nonneg (w ∷ v ∷ weights))
      (sum-map-pos w (v ∷ weights) positive.0)

percentage_exact :
    (t : ℕ) (weights : List ℕ)
    → 0 < length weights
    → All (λ w. 0 < w) weights
    → let rewards = divide_volume_rewards_by_percentage (pos t) weights in
      (length rewards ≡ length weights) × (sum rewards ≡ pos t)
percentage_exact t [] some_weight positive = absurd (omega arith)
percentage_exact t (w ∷ weights) some_weight positive =
    divide_volume_rewards_by_percentage_exact (pos t) w weights positive.0

-- What is left of the total `t` after `n` steps without volumes.
kept_back_lem : (t n step : ℕ) → step * n < t → kept_back (pos t) n (pos step) ≡ pos (t - step * n)
kept_back_lem t n zero lt = omega int_laws
kept_back_lem t n (suc step) lt =
    rw (gt→leb (suc step) 0 (omega arith)) (omega (int_laws, *ℤ_parts (pos (suc step)) (pos n)))

suc-==-zero : (n : ℕ) → (suc n == 0) ≡ false
suc-==-zero n = ground arith

total_reward_lem :
    (opt : DistOption) (t n step : ℕ)
    → opt.total_value ≡ pos t
    → opt.step_reward ≡ some (pos step)
    → step * n < t
    → total_reward opt n ≡ ends (pos (t - step * n))
unfolding total_reward
total_reward_lem opt t zero step ht hs lt = rw ht (ap (λ (m : ℕ). ends (pos m)) (omega arith))
total_reward_lem opt t (suc n) step ht hs lt =
    rw (suc-==-zero n, hs, ht) (ap ends (kept_back_lem t (suc n) step lt))

divide_volume_rewards_percent :
    (s : Setting) (opt : DistOption) (total : ℤ) (stats : List (List AccountStat))
    → opt.weight_is_percentage ≡ true
    → divide_volume_rewards s opt total stats
      ≡ ends (divide_volume_rewards_by_percentage total opt.weights)
unfolding divide_volume_rewards
divide_volume_rewards_percent s opt total stats percent = simp percent

-- The calls of pay_volumes in their order.
pay_volumes_run :
    (s : Setting) (opt : DistOption) (left n nonce : ℕ) (stats stats' : List (List AccountStat))
    (rewards : List ℤ) (failure : Option DispatchError) (d : Dispatched)
    → total_reward opt n ≡ ends (pos left)
    → 0 < left
    → divide_volume_rewards s opt (pos left) stats ≡ ends rewards
    → length rewards ≡ length stats
    → calc_rewards_in_batch stats rewards ≡ returns stats'
    → dispatch_rewards s opt n nonce stats' ≡ returns (failure, d)
    → pay_volumes s opt n nonce stats ≡ ends (failure, d)
unfolding pay_volumes
pay_volumes_run s opt left n nonce stats stats' rewards failure d total lt divided same run sent =
    rw (total, gt→leb left 0 lt, divided, (==_iff _ _).1 same, run, sent) refl

-- What pay_volumes does, where the percentages are positive.
pay_volumes-granted :
    (s : Setting) (opt : DistOption) (t n step nonce : ℕ) (stats : List (List AccountStat))
    → opt.weight_is_percentage ≡ true
    → opt.total_value ≡ pos t
    → opt.step_reward ≡ some (pos step)
    → step * n < t
    → 0 < length opt.weights
    → All (λ w. 0 < w) opt.weights
    → length opt.exchanges ≡ length opt.weights
    → length stats ≡ length opt.exchanges
    → All IsEndowed stats
    → nonce + count_all stats < word
    → ((i j : ℕ) → HasRoom (count_all stats) (s.nodes i j))
    → let rewards = divide_volume_rewards_by_percentage (pos (t - step * n)) opt.weights in
      (failure : Option DispatchError) × (d : Dispatched) × (pay_volumes s opt n nonce stats
        ≡ ends (failure, d))
      × IsDispatched s opt 0 d
      × (failure ≡ none → total_sended d.loops ≡ pos (t - step * n) +ℤ kept stats rewards)
      × ((stats' : List (List AccountStat)) × (calc_rewards_in_batch stats rewards ≡ returns stats')
          × PaysAll s opt stats' (failure, d))
pay_volumes-granted s opt t n step nonce stats percent ht hs lt some_weight positive weighted
      complete endowed room hn =
    let left = t - step * n in
    let rewards = divide_volume_rewards_by_percentage (pos left) opt.weights in
    let (count, exact) = percentage_exact left opt.weights some_weight positive in
    let same : length stats ≡ length rewards = omega (arith, count) in
    let (stats', run, got, rated, long, counted) =
      calc_rewards_in_batch-regranted stats rewards endowed
        (percentage_nonneg left opt.weights some_weight positive) same in
    let (failure, d, sent, dispatched, sums) =
      dispatch_rewards-Totals s opt n nonce stats' (omega (arith, long)) (omega (arith, counted))
        (λ i j m e. omega (arith, hn i j m e, counted)) in
    (
      failure,
      d,
      pay_volumes_run s opt left n nonce stats stats' rewards failure d
          (total_reward_lem opt t n step ht hs lt) (omega arith)
          (divide_volume_rewards_percent s opt (pos left) stats percent) (sym same) run sent,
      dispatched,
      (λ over. rw (sums over, payable_total-granted stats' rated, got, exact) refl),
      (
        stats',
        run,
        dispatch_rewards-PaysAll s opt n nonce stats' failure d (omega (arith, long)) sent,
      ),
    )

length-volume_accounts :
    (s : Setting) (opt : DistOption) (files : List String) (n : ℕ) (stats : List (List AccountStat))
    → volume_accounts s opt files ≡ ends (n, stats)
    → length stats ≡ length opt.exchanges
unfolding volume_accounts
length-volume_accounts s opt files n stats h =
    let (found, _, rest) =
      >>=-eq-ends (get_accounts_and_rewards s opt opt.exchanges files nothing_seen) _ h in
    if_complete-ends (length found.1.no_volume_start_heights) n (length opt.exchanges) found.0 stats
      rest

-- The calls of ByVolume in their order.
by_volume_run :
    (s : Setting) (options : DistOption) (files : List String) (n nonce : ℕ)
    (stats : List (List AccountStat)) (failure : Option DispatchError) (d : Dispatched)
    → is_nonpositive options.total_value ≡ false
    → let opt = record options { by_what = by_volume } in
      check_and_init (addresses_of s.src) opt s.chain.sender_balance s.chain.latest_height ≡ none
      → volume_accounts s opt files ≡ ends (n, stats)
      → pay_volumes s opt n nonce stats ≡ ends (failure, d)
      → by_volume_rewards s options files nonce ≡ ends (n, failure, d)
unfolding by_volume_rewards
by_volume_run s options files n nonce stats failure d positive checks found paid =
    rw (positive, checks, found, paid) refl

-- ByVolume with percentages, for a total of `t`, options that pass the checks and end below 2^64,
-- and accounts that have been found with rewards (not negative, and with a positive sum in each
-- exchange), where `n` steps are without volumes and their rewards are less than the total, and as
-- long as the nonces leave room for all accounts below 2^64: it ends with what dispatchRewards
-- returns; no two transactions have the same nonce; and without an error, what it has counted as
-- sent and the rewards of the steps without volumes add up to the total and to what the exchanges
-- keep whose part of the total is 0, which is all the rewards that had been found for them; what is
-- counted, unless it is a dry run, is the value of the transactions that were sent and the dust; and
-- then each account has been sent exactly what CalcRewardsInBatch has given it of the percentages of
-- the total, less the rewards that are not positive or below the threshold of dust.
pub by_volume_rewards-granted :
    (s : Setting) (options : DistOption) (files : List String) (t n step nonce : ℕ)
    (stats : List (List AccountStat))
    → options.weight_is_percentage ≡ true
    → options.total_value ≡ pos t
    → options.step_reward ≡ some (pos step)
    → options.end_height < word
    → let opt = record options { by_what = by_volume } in
      check_and_init (addresses_of s.src) opt s.chain.sender_balance s.chain.latest_height ≡ none
      → volume_accounts s opt files ≡ ends (n, stats)
      → All IsEndowed stats
      → step * n < t
      → nonce + count_all stats < word
      → ((i j : ℕ) → HasRoom (count_all stats) (s.nodes i j))
      → let rewards = divide_volume_rewards_by_percentage (pos (t - step * n)) opt.weights in
        (failure : Option DispatchError) × (d : Dispatched) × (by_volume_rewards s options files
            nonce
          ≡ ends (n, failure, d))
        × IsDispatched s opt 0 d
        × (failure ≡ none → total_sended d.loops +ℤ pos (step * n) ≡ pos t +ℤ kept stats rewards)
        × (failure ≡ none
            → opt.dry_run ≡ false
            → total_value (all_sent d.loops) +ℤ total_dust d.loops +ℤ pos (step * n)
              ≡ pos t +ℤ kept stats rewards)
        × ((stats' : List (List AccountStat)) × (calc_rewards_in_batch stats rewards
              ≡ returns stats')
            × PaysAll s opt stats' (failure, d))
by_volume_rewards-granted s options files t n step nonce stats percent ht hs small checks found
      endowed lt room hn =
    let opt = record options { by_what = by_volume } in
    let checked =
      check_and_init-IsChecked (addresses_of s.src) opt s.chain.sender_balance s.chain.latest_height
        refl small checks in
    let (failure, d, run, dispatched, sums, pays) =
      pay_volumes-granted s opt t n step nonce stats percent ht hs lt
        (omega (arith, checked.some_exchange, checked.weighted)) checked.positive checked.weighted
        (length-volume_accounts s opt files n stats found) endowed room hn in
    (
      failure,
      d,
      by_volume_run s options files n nonce stats failure d (rw ht (gt→leb t 0 (omega arith)))
          checks found run,
      dispatched,
      (λ over. rw (sums over) (omega int_laws)),
      (λ over wet.
          ap (λ (x : ℤ). x +ℤ pos (step * n))
            (sym (total_sended-split (sender_of s opt) d.loops wet dispatched.accounted))
          ∙ rw (sums over) (omega int_laws)),
      pays,
    )
