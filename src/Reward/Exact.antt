-- ===== src/Reward/Exact.antt =====
-- DivideRewards hands out exactly the total.
use anytoken_distribution.Base.{◌-◌, ◌≡◌, sym, List, length, arith}
use anytoken_distribution.Int.{ℤ, pos, ◌≤ℤ◌, sum}
use Prim.Native.Nat.{min}
use anytoken_distribution.Reward.Divide.{proportions, divide_rewards}
use anytoken_distribution.Reward.Rounding.{
  length-proportions, sum-spread, length-spread, pos_of_le, divide_rewards_lem,
}

-- DivideRewards, for shares with a positive sum: there is one reward for each share, and the
-- rewards add up to the total, exactly.
pub divide_rewards_exact :
    (total : ℤ) (shares : List ℤ)
    → pos 1 ≤ℤ sum shares
    → (length (divide_rewards total shares) ≡ length shares)
      × (sum (divide_rewards total shares) ≡ total)
divide_rewards_exact total shares h =
    let (k, hk, e) = pos_of_le (sum shares) h in
    let (left, below, whole, made) = divide_rewards_lem total k shares hk e in
    let parts = proportions total (pos k) shares in
    let same_length = length-proportions total (pos k) shares in
    let all_left : min (length parts) (left - 0) ≡ left = omega (arith, same_length) in
    (
      rw (made, length-spread (pos 0) left 0 parts) same_length,
      rw (made, sum-spread left 0 parts, all_left) (sym whole),
    )
