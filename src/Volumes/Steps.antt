-- ===== src/Volumes/Steps.antt =====
-- The rewards of a step of GetAccountsAndRewardsFromDB: its stakes, its division and its end.
use anytoken_distribution.Base.{
  ℕ, zero, suc, ◌+◌, ◌*◌, ◌<◌, ◌≡◌, refl, String, Option, none, some, List, [], ◌∷◌, ◌++◌, All,
  length, Bool, true, false, if◌then◌else◌, arith, inl, inr, Option-cases,
}
use anytoken_distribution.Int.{pos, ◌+ℤ◌}
use anytoken_distribution.Outcome.{Outcome, returns, ◌>>=◌}
use anytoken_distribution.Reward.Stats.{AccountStat}
use anytoken_distribution.Reward.Fresh.{IsFresh, granted}
use anytoken_distribution.Volumes.Find.{find_account_volumes}
use anytoken_distribution.Volumes.Collect.{AreSingle}
use anytoken_distribution.Volumes.Rewards.{Source, weighted_if, rewarded, close_step}
use anytoken_distribution.Volumes.Paid.{
  IsPaid, weighted_by_stake_amount-IsFresh, calc_rewards-AllPaid,
}
use anytoken_distribution.Volumes.Merged.{merge_stats-Merges, close_step_full}

abbrev pub is_vacant : List AccountStat → Bool
is_vacant [] = true
is_vacant (stat ∷ stats) = false

-- The starts of the steps that no account has volumes in.
abbrev pub missed_steps : Source → String → (start step n : ℕ) → List ℕ
missed_steps src exchange start step zero = []
missed_steps src exchange start step (suc n) =
    let stats =
      find_account_volumes src.ex src.db exchange start (start + step) src.use_time_measurement in
    let rest = missed_steps src exchange (start + step) step n in
    if is_vacant stats then start ∷ rest else rest

weighted_if-IsFresh :
    (src : Source) (block_number : Option ℕ) (stats : List AccountStat)
    → All IsFresh stats
    → (stats' : List AccountStat) × (weighted_if src.ex.lib src.staking block_number stats
        ≡ returns stats')
      × All IsFresh stats'
      × (length stats' ≡ length stats)
weighted_if-IsFresh src block_number stats all = elim (Option-cases src.staking) [
  | inl e ↦ (stats, rw e refl, all, refl)
  | inr (staking, e) ↦
      let (stats', run, fresh, same) =
        weighted_by_stake_amount-IsFresh src.ex.lib staking block_number stats all in
      (stats', rw e run, fresh, same)
]

rewarded-AllPaid :
    (src : Source) (n end : ℕ) (stat : AccountStat) (stats : List AccountStat)
    → All IsFresh (stat ∷ stats)
    → (s' : List AccountStat) × (rewarded src (some (pos (suc n))) end (stat ∷ stats) ≡ returns s')
      × (granted s' ≡ pos (suc n))
      × All IsPaid s'
      × (0 < length s')
unfolding rewarded
rewarded-AllPaid src n end stat stats all =
    let (weighted, run, fresh, same) =
      weighted_if-IsFresh src (if src.archive_mode then some end else none) (stat ∷ stats) all in
    let (s', runs, got, paid, same') =
      calc_rewards-AllPaid n weighted fresh (omega (arith, same)) in
    (s', rw (run, runs) refl, got, paid, omega (arith, same, same'))

-- The map and the starts of the steps without volumes, after `n` steps of a positive reward.
abbrev pub Steps :
    Source
    → String
    → (r start step n : ℕ) → List AccountStat
    → List ℕ
    → Outcome (Option (List AccountStat × List ℕ))
    → Type 0
Steps src exchange r start step n fins starts o =
    let missed = missed_steps src exchange start step n in
    (fins' : List AccountStat) × (o ≡ returns (some (fins', starts ++ missed)))
    × All IsPaid fins'
    × AreSingle fins'
    × (granted fins' +ℤ pos (length missed * suc r) ≡ granted fins +ℤ pos (n * suc r))

-- What a step leaves: it is missed, or pays its reward.
abbrev pub Closes :
    (r start : ℕ)
    → (vacant : Bool) → List AccountStat
    → List ℕ
    → Outcome (List AccountStat × List ℕ)
    → Type 0
Closes r start vacant fins starts o =
    (fins' : List AccountStat) × (o
      ≡ returns (fins', if vacant then starts ++ start ∷ [] else starts))
    × All IsPaid fins'
    × AreSingle fins'
    × (granted fins' ≡ (if vacant then granted fins else granted fins +ℤ pos (suc r)))

pub close-Closes :
    (src : Source) (r start end : ℕ) (stats fins : List AccountStat) (starts : List ℕ)
    → All IsFresh stats
    → All IsPaid fins
    → AreSingle fins
    → Closes r start
        (is_vacant stats)
        fins
        starts
        (rewarded src (some (pos (suc r))) end stats >>= λ s. close_step start s (fins, starts))
unfolding rewarded
close-Closes src r start end [] fins starts fresh all single = (fins, refl, all, single, refl)
close-Closes src r start end (stat ∷ stats) fins starts fresh all single =
    let (s, run, got, paid, full) = rewarded-AllPaid src r end stat stats fresh in
    let (fins', merged, alls, singles, sums) = merge_stats-Merges s fins paid all single in
    (
      fins',
      (rw run (close_step_full start s fins fins' starts full merged)),
      alls,
      singles,
      rw (sums, got) refl,
    )
