-- ===== src/Reward/Divide.antt =====
-- mongodb/types.go, DivideRewards.
use anytoken_distribution.Base.{ℕ, ◌+◌, List, [], ◌∷◌, length, ltb, if◌then◌else◌}
use anytoken_distribution.Int.{ℤ, pos, pos_part, ◌+ℤ◌, ◌-ℤ◌, ◌*ℤ◌, ◌/ℤ◌, ltb_ℤ, is_nonpositive, sum}

-- The first loop: each share's part of the total, rounded down.
unfoldable pub proportions : ℤ → ℤ → List ℤ → List ℤ
proportions total sum_share [] = []
proportions total sum_share (share ∷ shares) =
    total *ℤ share /ℤ sum_share ∷ proportions total sum_share shares

-- The second loop, from index `i`: what is left over is spread evenly, and the first `rest`
-- members get one more.
unfoldable pub spread : ℤ → ℕ → ℕ → List ℤ → List ℤ
spread avg rest i [] = []
spread avg rest i (reward ∷ rewards) =
    let raised = if is_nonpositive avg then reward else reward +ℤ avg in
    (if ltb i rest then raised +ℤ pos 1 else raised) ∷ spread avg rest (i + 1) rewards

-- `new(big.Int).Mod(a, b)`
abbrev pub mod_ℤ : ℤ → ℤ → ℤ
mod_ℤ a b = a -ℤ b *ℤ (a /ℤ b)

-- What follows the first loop. `count` is the length of a slice, so that int64 and Uint64 are exact.
unfoldable pub share_left : ℤ → List ℤ → List ℤ
share_left total rewards =
    let sum_reward = sum rewards in
    let left = total -ℤ sum_reward in
    let count = pos (length rewards) in
    if ltb_ℤ sum_reward total
    then spread (left /ℤ count) (pos_part (mod_ℤ left count)) 0 rewards
    else rewards

-- `nil` is the empty list.
unfoldable pub divide_rewards : ℤ → List ℤ → List ℤ
divide_rewards total shares =
    if is_nonpositive (sum shares)
    then []
    else share_left total (proportions total (sum shares) shares)
