-- ===== src/Reward/Tests.antt =====
-- Runs of mongodb/types.go's functions, and its theorems at concrete statistics.
use anytoken_distribution.Base.{◌≡◌, refl, none, some, List, [], ◌∷◌, map, length, arith}
use anytoken_distribution.Int.{ℤ, pos, ◌+ℤ◌, ◌-ℤ◌, ◌*ℤ◌, ◌/ℤ◌, sum}
use anytoken_distribution.Outcome.{returns, panics, deref_all}
use anytoken_distribution.Reward.Divide.{divide_rewards, proportions, spread, share_left}
use anytoken_distribution.Reward.Stats.{
  AccountStat, calc_rewards, calc_total_reward, calc_total_share, rewards_of, calc_weighted_rewards,
}
use anytoken_distribution.Reward.Exact.{divide_rewards_exact}
use anytoken_distribution.Reward.Fair.{AllFair, divide_rewards-AllFair}
use anytoken_distribution.Reward.Calc.{calc_rewards_exact, unrewarded}
use anytoken_distribution.Reward.Fresh.{granted_all}
use anytoken_distribution.Reward.Weighted.{calc_weighted_rewards_exact}

abbrev shares : List ℤ
shares = pos 3 ∷ pos 3 ∷ pos 1 ∷ []

divide-shares : divide_rewards (pos 100) shares ≡ pos 43 ∷ pos 43 ∷ pos 14 ∷ []
unfolding divide_rewards share_left proportions spread sum ◌+ℤ◌ ◌-ℤ◌ ◌*ℤ◌ ◌/ℤ◌
divide-shares = refl

-- A total of one unit goes to the first member, though that has no share.
divide-zero_share : divide_rewards (pos 1) (pos 0 ∷ pos 1 ∷ pos 1 ∷ []) ≡ pos 1 ∷ pos 0 ∷ pos 0 ∷ []
unfolding divide_rewards share_left proportions spread sum ◌+ℤ◌ ◌-ℤ◌ ◌*ℤ◌ ◌/ℤ◌
divide-zero_share = refl

divide_rewards_exact_example :
    (length (divide_rewards (pos 100) shares) ≡ 3)
    × (sum (divide_rewards (pos 100) shares) ≡ pos 100)
unfolding sum ◌+ℤ◌
divide_rewards_exact_example = divide_rewards_exact (pos 100) shares (omega arith)

divide_rewards-AllFair_example :
    AllFair (pos 100) (sum shares) shares (divide_rewards (pos 100) shares)
unfolding sum ◌+ℤ◌
divide_rewards-AllFair_example = divide_rewards-AllFair (pos 100) shares (omega arith)

abbrev alice : AccountStat
alice = record { account = 1; reward = none; share = some (pos 3); number = 2 }

abbrev bob : AccountStat
bob = record { account = 2; reward = none; share = some (pos 4); number = 1 }

-- A line of two parts leaves the share nil, and its sum panics.
share_is_nil : calc_total_share (record alice { share = none; reward = some (pos 9) } ∷ []) ≡ panics
unfolding calc_total_share deref_all
share_is_nil = refl

calc_rewards_exact_example :
    (s' : List AccountStat) × (calc_rewards (some (pos 100)) (alice ∷ bob ∷ []) ≡ returns s')
    × (calc_total_reward s' ≡ returns (pos 100))
    × (rewards_of s' ≡ map some (divide_rewards (pos 100) (pos 3 ∷ pos 4 ∷ [])))
    × AllFair
        (pos 100)
        (sum (pos 3 ∷ pos 4 ∷ []))
        (pos 3 ∷ pos 4 ∷ [])
        (divide_rewards (pos 100) (pos 3 ∷ pos 4 ∷ []))
    × (map unrewarded s' ≡ map unrewarded (alice ∷ bob ∷ []))
unfolding deref_all sum ◌+ℤ◌
calc_rewards_exact_example =
    calc_rewards_exact (pos 100) alice (bob ∷ []) (pos 3 ∷ pos 4 ∷ []) (omega arith) refl
      (omega arith)

calc_weighted_rewards_exact_example :
    (stats' : List (List AccountStat)) × (calc_weighted_rewards
        ((alice ∷ bob ∷ []) ∷ (bob ∷ []) ∷ [])
        (some (pos 100))
        (some (1 ∷ 2 ∷ []))
      ≡ returns stats')
    × (granted_all stats' ≡ pos 100)
calc_weighted_rewards_exact_example =
    calc_weighted_rewards_exact 100 (alice ∷ bob ∷ []) ((bob ∷ []) ∷ []) (some (1 ∷ 2 ∷ []))
      (omega arith)
      (
        (
          record { units = 2; shared = refl; unpaid = refl },
          (record { units = 3; shared = refl; unpaid = refl }, tt),
        ),
        ((record { units = 3; shared = refl; unpaid = refl }, tt), tt),
      )
      (omega arith)
