-- ===== src/Distribute/VolumeTests.antt =====
-- Rewards divided among two exchanges.
use anytoken_distribution.Base.{◌≡◌, refl, none, some, List, [], ◌∷◌}
use anytoken_distribution.Int.{ℤ, pos, sum, ◌+ℤ◌, ◌-ℤ◌, ◌*ℤ◌, ◌/ℤ◌}
use anytoken_distribution.Outcome.{returns, deref_all}
use anytoken_distribution.Reward.Stats.{AccountStat, calc_total_share}
use anytoken_distribution.Reward.Divide.{divide_rewards, proportions, spread, share_left}
use anytoken_distribution.Distribute.ByVolume.{
  upper_limit, exchange_share, exchange_shares, divide_volume_rewards_by_exchange,
}

abbrev trader : AccountStat
trader = record { account = 1; reward = none; share = some (pos 7); number = 1 }

-- The first exchange has fewer coins than its accounts have traded.
abbrev two_exchanges : List (List AccountStat × ℤ)
two_exchanges = (trader ∷ [], pos 5) ∷ (record trader { share = some (pos 3) } ∷ [], pos 10) ∷ []

divide-two_exchanges :
    divide_volume_rewards_by_exchange (pos 80) 100 100 two_exchanges none
    ≡ returns (pos 50 ∷ pos 30 ∷ [])
unfolding divide_volume_rewards_by_exchange exchange_shares exchange_share upper_limit
    calc_total_share deref_all sum ◌+ℤ◌ ◌-ℤ◌ ◌*ℤ◌ ◌/ℤ◌ divide_rewards proportions spread share_left
divide-two_exchanges = refl
