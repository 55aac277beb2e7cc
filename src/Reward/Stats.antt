-- ===== src/Reward/Stats.antt =====
-- mongodb/types.go: AccountStat, its sums, and the rewards of one and of several slices.
use anytoken_distribution.Base.{
  ℕ, Bool, true, false, Option, none, some, List, [], ◌∷◌, map, length, ◌==◌, if◌then◌else◌,
}
use anytoken_distribution.Int.{ℤ, pos, ◌*ℤ◌, is_nonpositive, sum}
use anytoken_distribution.Outcome.{Outcome, returns, panics, ◌>>=◌, deref, deref_all}
use anytoken_distribution.Reward.Divide.{divide_rewards}

-- `none` is the nil pointer.
pub record AccountStat : Type 0 where
  pub account : ℕ
  pub reward : Option ℤ
  pub share : Option ℤ
  pub number : ℕ

abbrev pub is_some {ℓ} : {A : Type ℓ} → Option A → Bool
is_some none = false
is_some (some a) = true

unfoldable pub is_account_exist : List AccountStat → ℕ → Bool
is_account_exist [] account = false
is_account_exist (stat ∷ s) account =
    if stat.account == account then true else is_account_exist s account

abbrev pub shares_of : List AccountStat → List (Option ℤ)
shares_of = map (λ stat. stat.share)

abbrev pub rewards_of : List AccountStat → List (Option ℤ)
rewards_of = map (λ stat. stat.reward)

unfoldable pub calc_total_share : List AccountStat → Outcome ℤ
calc_total_share s = do shares ← deref_all (shares_of s); returns (sum shares)

unfoldable pub calc_total_reward : List AccountStat → Outcome ℤ
calc_total_reward s = do rewards ← deref_all (rewards_of s); returns (sum rewards)

-- The last loop of CalcRewards.
unfoldable pub assign_rewards : List ℤ → List AccountStat → List AccountStat
assign_rewards (r ∷ rewards) (stat ∷ s) = record stat { reward = some r } ∷ assign_rewards rewards s
assign_rewards _ s = s

abbrev pub accept_rewards : List ℤ → List AccountStat → List AccountStat
accept_rewards rewards s = if length rewards == length s then assign_rewards rewards s else s

-- The values that the total is divided by: earlier rewards if the first account has one.
abbrev pub basis : AccountStat → List AccountStat → List (Option ℤ)
basis first s = if is_some first.reward then rewards_of s else shares_of s

unfoldable pub calc_rewards : Option ℤ → List AccountStat → Outcome (List AccountStat)
calc_rewards total [] = returns []
calc_rewards none (first ∷ s) = returns (first ∷ s)
calc_rewards (some total) (first ∷ s) = if is_nonpositive total then returns (first ∷ s) else do
  values ← deref_all (basis first (first ∷ s))
  returns (accept_rewards (divide_rewards total values) (first ∷ s))

unfoldable pub sum_weight_shares : ℕ → List AccountStat → Outcome ℤ
sum_weight_shares weight s = do
  shares ← deref_all (shares_of s)
  returns (sum (map (λ share. share *ℤ pos weight) shares))

-- The loop of CalcRewardsInBatch, over as many rewards as slices.
unfoldable pub calc_each : List (List AccountStat) → List ℤ → Outcome (List (List AccountStat))
calc_each (s ∷ stats) (r ∷ rewards) = do
  s' ← calc_rewards (some r) s
  stats' ← calc_each stats rewards
  returns (s' ∷ stats')
calc_each stats _ = returns stats

-- A nil slice of rewards is the empty list.
unfoldable pub calc_rewards_in_batch :
    List (List AccountStat) → List ℤ → Outcome (List (List AccountStat))
calc_rewards_in_batch stats [] = returns stats
calc_rewards_in_batch stats (r ∷ rewards) =
    if length stats == length (r ∷ rewards) then calc_each stats (r ∷ rewards) else returns stats

-- The sums that CalcWeightedRewards divides by; with no weights each slice counts once.
unfoldable pub weighted_shares : Option (List ℕ) → List (List AccountStat) → Outcome (List ℤ)
weighted_shares weights [] = returns []
weighted_shares none (s ∷ stats) = do
  share ← sum_weight_shares 1 s
  rest ← weighted_shares none stats
  returns (share ∷ rest)
weighted_shares (some []) (s ∷ stats) = panics
weighted_shares (some (w ∷ weights)) (s ∷ stats) = do
  share ← sum_weight_shares w s
  rest ← weighted_shares (some weights) stats
  returns (share ∷ rest)

abbrev pub weights_fit : Option (List ℕ) → List (List AccountStat) → Bool
weights_fit none stats = true
weights_fit (some weights) stats = length weights == length stats

-- The body of CalcWeightedRewards once the weights fit.
unfoldable pub calc_weighted :
    List (List AccountStat) → Option ℤ → Option (List ℕ) → Outcome (List (List AccountStat))
calc_weighted [] total weights = returns []
calc_weighted (s ∷ []) total weights = do s' ← calc_rewards total s; returns (s' ∷ [])
calc_weighted (s ∷ s' ∷ stats) total weights = do
  shares ← weighted_shares weights (s ∷ s' ∷ stats)
  t ← (if is_nonpositive (sum shares) then returns (pos 0) else deref total)
  calc_rewards_in_batch (s ∷ s' ∷ stats) (divide_rewards t shares)

unfoldable pub calc_weighted_rewards :
    List (List AccountStat) → Option ℤ → Option (List ℕ) → Outcome (List (List AccountStat))
calc_weighted_rewards stats total weights =
    if weights_fit weights stats then calc_weighted stats total weights else returns stats
