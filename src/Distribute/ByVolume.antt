-- ===== src/Distribute/ByVolume.antt =====
-- distributer/byvolume.go: how ByVolume divides the rewards among the exchanges.
use anytoken_distribution.Base.{
  ℕ, ◌≡◌, ◌<◌, suc, refl, Option, none, some, List, [], ◌∷◌, map, length, length-map, Bool, false,
  not, ltb, ◌∙◌, ◌==◌, if◌then◌else◌, arith,
}
use anytoken_distribution.Int.{ℤ, pos, ◌*ℤ◌, ◌/ℤ◌, ◌≤ℤ◌, ltb_ℤ, sum, int_laws}
use anytoken_distribution.Outcome.{Outcome, returns, panics, ◌>>=◌}
use anytoken_distribution.Reward.Divide.{divide_rewards}
use anytoken_distribution.Reward.Exact.{divide_rewards_exact}
use anytoken_distribution.Reward.Stats.{AccountStat, calc_total_share}

unfoldable pub divide_volume_rewards_by_percentage : ℤ → List ℕ → List ℤ
divide_volume_rewards_by_percentage total (w ∷ []) = total ∷ []
divide_volume_rewards_by_percentage total weights = divide_rewards total (map pos weights)

-- The coins of an exchange, scaled to a range that is not as long as the cycle before it.
unfoldable pub upper_limit : (coins : ℤ) → (len prev_len : ℕ) → Outcome ℤ
upper_limit coins len prev_len =
    if len == prev_len
    then returns coins
    else if prev_len == 0
    then panics
    else returns (coins *ℤ pos len /ℤ pos prev_len)

-- The weight of an exchange, which counts only above one.
abbrev pub weight_of : Option ℕ → ℕ
weight_of none = 1
weight_of (some weight) = if ltb 1 weight then weight else 1

abbrev pub is_zero_ℤ : ℤ → Bool
is_zero_ℤ (pos n) = n == 0
is_zero_ℤ _ = false

-- The share of an exchange: its sum of shares, cut at the limit, by its weight.
unfoldable pub exchange_share : (sum_share limit : ℤ) → Option ℕ → ℤ
exchange_share sum_share limit weight =
    if is_zero_ℤ sum_share
    then pos 0
    else (if ltb_ℤ limit sum_share then limit else sum_share) *ℤ pos (weight_of weight)

abbrev pub first_of : List ℕ → Option ℕ
first_of [] = none
first_of (w ∷ weights) = some w

abbrev pub later_of : List ℕ → List ℕ
later_of [] = []
later_of (w ∷ weights) = weights

abbrev pub wrong_count : Option (List ℕ) → List (List AccountStat × ℤ) → Bool
wrong_count none exchanges = false
wrong_count (some weights) exchanges = not (length weights == length exchanges)

abbrev pub weights_or_none : Option (List ℕ) → List ℕ
weights_or_none none = []
weights_or_none (some weights) = weights

-- The loop over the exchanges: their accounts and coins.
unfoldable pub exchange_shares :
    (len prev_len : ℕ) → List (List AccountStat × ℤ) → (weights : List ℕ) → Outcome (List ℤ)
unfolding exchange_share upper_limit
exchange_shares len prev_len [] weights = returns []
exchange_shares len prev_len ((stats, coins) ∷ exchanges) weights = do
  sum_share ← calc_total_share stats
  limit ← (if is_zero_ℤ sum_share then returns (pos 0) else upper_limit coins len prev_len)
  rest ← exchange_shares len prev_len exchanges (later_of weights)
  returns (exchange_share sum_share limit (first_of weights) ∷ rest)

-- divideVolumeRewardsByExchange, of a range of `len` after a cycle of `prev_len`; nil weights are
-- none, and a nil result is empty.
unfoldable pub divide_volume_rewards_by_exchange :
    (total : ℤ)
    → (len prev_len : ℕ) → List (List AccountStat × ℤ)
    → Option (List ℕ)
    → Outcome (List ℤ)
unfolding exchange_shares
divide_volume_rewards_by_exchange total len prev_len exchanges weights =
    if length exchanges == 1
    then returns (total ∷ [])
    else if wrong_count weights exchanges
    then returns []
    else do
      shares ← exchange_shares len prev_len exchanges (weights_or_none weights)
      returns (divide_rewards total shares)

sum-nonneg : (weights : List ℕ) → pos 0 ≤ℤ sum (map pos weights)
unfolding sum
sum-nonneg [] = omega arith
sum-nonneg (w ∷ weights) = omega (int_laws, sum-nonneg weights)

pub sum-map-pos : (w : ℕ) (weights : List ℕ) → 0 < w → pos 1 ≤ℤ sum (map pos (w ∷ weights))
unfolding sum
sum-map-pos w weights h = omega (int_laws, sum-nonneg weights)

-- For weights of which the first is positive, divideVolumeRewardsByPercentage returns one reward for
-- each weight, and they add up to the total.
pub divide_volume_rewards_by_percentage_exact :
    (total : ℤ) (w : ℕ) (weights : List ℕ)
    → 0 < w
    → let rewards = divide_volume_rewards_by_percentage total (w ∷ weights) in
      (length rewards ≡ suc (length weights)) × (sum rewards ≡ total)
unfolding divide_volume_rewards_by_percentage sum
divide_volume_rewards_by_percentage_exact total w [] h = (refl, omega int_laws)
divide_volume_rewards_by_percentage_exact total w (v ∷ weights) h =
    let (count, exact) =
      divide_rewards_exact total (map pos (w ∷ v ∷ weights)) (sum-map-pos w (v ∷ weights) h) in
    (count ∙ length-map (w ∷ v ∷ weights) pos, exact)
