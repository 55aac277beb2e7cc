-- ===== src/Reward/Fair.antt =====
-- DivideRewards is fair: each reward is its exact proportion of the total, up to one unit.
use anytoken_distribution.Base.{ℕ, ◌+◌, ◌<◌, List, [], ◌∷◌, ltb, Bool-cases, inl, inr}
use anytoken_distribution.Int.{ℤ, pos, ◌+ℤ◌, ◌*ℤ◌, ◌/ℤ◌, ◌≤ℤ◌, sum, int_laws, *ℤ_parts}
use anytoken_distribution.Int.Ring.{+ℤ-*ℤ}
use anytoken_distribution.Int.Division.{div_remainder}
use anytoken_distribution.Reward.Divide.{proportions, spread, divide_rewards}
use anytoken_distribution.Reward.Rounding.{parts_of_eq, pos_of_le, divide_rewards_lem}

-- `reward` is `total * share / whole`, short of one unit at most one unit up or down.
abbrev pub IsFair : ℤ → ℤ → ℤ → ℤ → Type 0
IsFair total whole share reward =
    (total *ℤ share +ℤ pos 1 ≤ℤ reward *ℤ whole +ℤ whole)
    × (reward *ℤ whole ≤ℤ total *ℤ share +ℤ whole)

-- Each reward is fair to the share at its place.
abbrev pub AllFair : ℤ → ℤ → List ℤ → List ℤ → Type 0
AllFair total whole [] [] = Unit
AllFair total whole (share ∷ shares) (reward ∷ rewards) =
    IsFair total whole share reward × AllFair total whole shares rewards
AllFair total whole _ _ = ⊥

part-IsFair :
    (total share : ℤ) (k : ℕ)
    → 0 < k
    → let part = total *ℤ share /ℤ pos k in
      IsFair total (pos k) share part × IsFair total (pos k) share (part +ℤ pos 1)
part-IsFair total share k hk =
    let (r, below, whole) = div_remainder (total *ℤ share) k hk in
    let part = total *ℤ share /ℤ pos k in
    let facts = parts_of_eq (part *ℤ pos k) r whole in
    let next = *ℤ_parts (pos 1) (pos k) in
    rw (+ℤ-*ℤ part (pos 1) (pos k))
      ((omega int_laws, omega int_laws), (omega (int_laws, next), omega (int_laws, next)))

spread-AllFair :
    (total : ℤ) (k rest i : ℕ) (shares : List ℤ)
    → 0 < k
    → AllFair total (pos k) shares (spread (pos 0) rest i (proportions total (pos k) shares))
unfolding spread proportions
spread-AllFair total k rest i [] hk = tt
spread-AllFair total k rest i (share ∷ shares) hk = elim (Bool-cases (ltb i rest)) [
  | inl before ↦
      rw before ((part-IsFair total share k hk).1, spread-AllFair total k rest (i + 1) shares hk)
  | inr after ↦
      rw after ((part-IsFair total share k hk).0, spread-AllFair total k rest (i + 1) shares hk)
]

-- DivideRewards, for shares with a positive sum: the reward of each share differs from its exact
-- proportion of the total by less than one unit below and at most one unit above.
pub divide_rewards-AllFair :
    (total : ℤ) (shares : List ℤ)
    → pos 1 ≤ℤ sum shares
    → AllFair total (sum shares) shares (divide_rewards total shares)
divide_rewards-AllFair total shares h =
    let (k, hk, e) = pos_of_le (sum shares) h in
    let (left, below, whole, made) = divide_rewards_lem total k shares hk e in
    rw (made, e) (spread-AllFair total k left 0 shares hk)
