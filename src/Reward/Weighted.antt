-- ===== src/Reward/Weighted.antt =====
-- CalcWeightedRewards: over several exchanges the rewards of all accounts add up to the total.
use anytoken_distribution.Base.{
  ℕ, suc, ◌≡◌, refl, ap, ◌∙◌, List, [], ◌∷◌, map, length, Option, some, none, arith, true, ==_iff,
  ◌<◌, gt→leb, All,
}
use anytoken_distribution.Int.{ℤ, pos, ◌≤ℤ◌, ◌*ℤ◌, pos_part, sum, int_laws}
use anytoken_distribution.Outcome.{returns}
use anytoken_distribution.Reward.Divide.{divide_rewards}
use anytoken_distribution.Reward.Exact.{divide_rewards_exact}
use anytoken_distribution.Reward.Stats.{
  AccountStat, calc_rewards_in_batch, sum_weight_shares, weighted_shares, weights_fit,
  calc_weighted, calc_weighted_rewards,
}
use anytoken_distribution.Reward.Slices.{
  IsSettled, count_all, IsFunded→fresh, divide_rewards-nonneg, calc_rewards-granted,
  calc_each-granted, in_batch,
}
use anytoken_distribution.Reward.Fresh.{granted_all, IsFunded, fresh_shares}

-- Nil weights, or one positive weight for each slice.
abbrev pub ArePositive : Option (List ℕ) → List (List AccountStat) → Type 0
ArePositive none stats = Unit
ArePositive (some weights) stats = All (λ w. 0 < w) weights × (length weights ≡ length stats)

sum_weight_shares_lem :
    (w : ℕ) (s : List AccountStat)
    → 0 < w
    → IsFunded s
    → (share : ℤ) × (sum_weight_shares w s ≡ returns share) × (pos 1 ≤ℤ share)
unfolding sum_weight_shares
sum_weight_shares_lem w s hw h =
    let (fresh, some_account) = IsFunded→fresh s h in
    let (values, e, _, le, _) = fresh_shares w s hw fresh in
    (sum (map (λ share. share *ℤ pos w) values), rw e, omega arith)

weighted_shares_lem :
    (weights : Option (List ℕ)) (stats : List (List AccountStat))
    → All IsFunded stats
    → ArePositive weights stats
    → (shares : List ℤ) × (weighted_shares weights stats ≡ returns shares)
      × (length shares ≡ length stats)
      × All (λ share. pos 1 ≤ℤ share) shares
unfolding weighted_shares
weighted_shares_lem none [] h hw = ([], refl, refl, tt)
weighted_shares_lem (some weights) [] h hw = ([], refl, refl, tt)
weighted_shares_lem none (s ∷ stats) h hw =
    let (share, e, le) = sum_weight_shares_lem 1 s (omega arith) h.0 in
    let (shares, es, same, les) = weighted_shares_lem none stats h.1 tt in
    (share ∷ shares, rw (e, es), ap suc same, (le, les))
weighted_shares_lem (some []) (s ∷ stats) h hw = absurd (omega arith)
weighted_shares_lem (some (w ∷ weights)) (s ∷ stats) h hw =
    let (share, e, le) = sum_weight_shares_lem w s hw.0.0 h.0 in
    let (shares, es, same, les) =
      weighted_shares_lem (some weights) stats h.1 (hw.0.1, omega arith) in
    (share ∷ shares, rw (e, es), ap suc same, (le, les))

sum-ge-one :
    (shares : List ℤ) → All (λ share. pos 1 ≤ℤ share) shares → pos (length shares) ≤ℤ sum shares
unfolding sum
sum-ge-one [] h = omega arith
sum-ge-one (share ∷ shares) h = omega (int_laws, sum-ge-one shares h.1)

weights_fit_lem :
    (weights : Option (List ℕ)) (stats : List (List AccountStat))
    → ArePositive weights stats
    → weights_fit weights stats ≡ true
weights_fit_lem none stats h = refl
weights_fit_lem (some weights) stats h = (==_iff _ _).1 h.1

batch-granted :
    (s : List AccountStat) (stats : List (List AccountStat)) (t : ℕ) (shares : List ℤ)
    → All IsFunded (s ∷ stats)
    → All (λ share. pos 1 ≤ℤ share) shares
    → length shares ≡ length (s ∷ stats)
    → (stats' : List (List AccountStat)) × (calc_rewards_in_batch
          (s ∷ stats)
          (divide_rewards (pos t) shares)
        ≡ returns stats')
      × (granted_all stats' ≡ pos t)
      × All (All IsSettled) stats'
      × (length stats' ≡ suc (length stats))
      × (count_all stats' ≡ count_all (s ∷ stats))
batch-granted s stats t shares h hs same =
    let positive : pos 1 ≤ℤ sum shares = omega (arith, sum-ge-one shares hs) in
    let (count, exact) = divide_rewards_exact (pos t) shares positive in
    let (stats', run, got, settled, long, counted) =
      calc_each-granted (s ∷ stats) (divide_rewards (pos t) shares) h
        (divide_rewards-nonneg t shares hs positive) (omega (arith, count)) in
    (stats', in_batch _ _ (omega (arith, count)) ∙ run, got ∙ exact, settled, long, counted)

-- CalcWeightedRewards with all that the dispatch of the rewards needs.
pub calc_weighted_rewards-granted :
    (t : ℕ) (s : List AccountStat) (stats : List (List AccountStat)) (weights : Option (List ℕ))
    → 0 < t
    → All IsFunded (s ∷ stats)
    → ArePositive weights (s ∷ stats)
    → (stats' : List (List AccountStat)) × (calc_weighted_rewards (s ∷ stats) (some (pos t)) weights
        ≡ returns stats')
      × (granted_all stats' ≡ pos t)
      × All (All IsSettled) stats'
      × (length stats' ≡ suc (length stats))
      × (count_all stats' ≡ count_all (s ∷ stats))
unfolding calc_weighted_rewards calc_weighted
calc_weighted_rewards-granted t s [] weights ht h hw =
    let (s', run, got, settled, long) = calc_rewards-granted (pos t) s h.0 (omega arith) in
    (
      s' ∷ [],
      rw (weights_fit_lem weights (s ∷ []) hw, run),
      rw got (omega int_laws),
      (settled, tt),
      refl,
      omega (arith, long),
    )
calc_weighted_rewards-granted t s (s₂ ∷ stats) weights ht h hw =
    let (shares, e, same, le) = weighted_shares_lem weights (s ∷ s₂ ∷ stats) h hw in
    let positive = sum-ge-one shares le in
    let (stats', run, got, settled, long, counted) =
      batch-granted s (s₂ ∷ stats) t shares h le same in
    (
      stats',
      rw
          (
            weights_fit_lem weights (s ∷ s₂ ∷ stats) hw,
            e,
            gt→leb (pos_part (sum shares)) 0 (omega arith),
          )
          run,
      got,
      settled,
      long,
      counted,
    )

-- CalcWeightedRewards, for a positive total and at least one exchange, where every exchange has
-- an account, every account has a positive share and no reward yet, and the weights are nil or one
-- positive weight for each exchange: it returns, and the rewards of all accounts of all exchanges
-- add up to the total.
pub calc_weighted_rewards_exact :
    (t : ℕ) (s : List AccountStat) (stats : List (List AccountStat)) (weights : Option (List ℕ))
    → 0 < t
    → All IsFunded (s ∷ stats)
    → ArePositive weights (s ∷ stats)
    → (stats' : List (List AccountStat)) × (calc_weighted_rewards (s ∷ stats) (some (pos t)) weights
        ≡ returns stats')
      × (granted_all stats' ≡ pos t)
calc_weighted_rewards_exact t s stats weights ht h hw =
    let (stats', run, got, _, _, _) = calc_weighted_rewards-granted t s stats weights ht h hw in
    (stats', run, got)
