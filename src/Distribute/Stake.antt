-- ===== src/Distribute/Stake.antt =====
-- params/checkconfig.go and distributer/option.go: the stake points, and the percentage that an
-- account's stake adds to its share.
use anytoken_distribution.Base.{
  ℕ, ◌<◌, ◌≤◌, ◌≡◌, ◌⊎◌, inl, inr, refl, List, [], ◌∷◌, length, Option, none, some, Bool, true,
  false, not, leb, leb→le, ◌==◌, Bool-cases, if◌then◌else◌, arith, String, All,
}

pub record StakeConfig : Type 0 where
  pub contract : String
  pub stakers : List String
  pub points : List ℕ
  pub percents : List ℕ

pub data StakeError : Type 0 where
  wrong_contract wrong_staker wrong_count wrong_points wrong_percents : StakeError

-- One of the two loops of checkStakeConfig: whether it ends without an error.
unfoldable pub is_ascending : ℕ → List ℕ → Bool
is_ascending prev [] = true
is_ascending prev (point ∷ points) =
    let rest = is_ascending point points in if leb point prev then false else rest

abbrev pub all_hex : (String → Bool) → List String → Bool
all_hex is_hex_address [] = true
all_hex is_hex_address (staker ∷ stakers) =
    let rest = all_hex is_hex_address stakers in if not (is_hex_address staker) then false else rest

-- checkStakeConfig, of a configuration that is not nil; `none` is the nil error.
unfoldable pub check_stake_config : (String → Bool) → StakeConfig → Option StakeError
unfolding is_ascending
check_stake_config is_hex_address config =
    if not (is_hex_address config.contract)
    then some wrong_contract
    else if not (all_hex is_hex_address config.stakers)
    then some wrong_staker
    else if not (length config.points == length config.percents)
    then some wrong_count
    else if not (is_ascending 0 config.points)
    then some wrong_points
    else if not (is_ascending 0 config.percents)
    then some wrong_percents
    else none

-- The loop of calcAddPercentOfStaking, with `percent` so far.
unfoldable pub last_point : (percent amount : ℕ) → List ℕ → ℕ
last_point percent amount [] = percent
last_point percent amount (point ∷ points) =
    last_point (if leb point amount then point else percent) amount points

unfoldable pub calc_add_percent_of_staking : StakeConfig → ℕ → ℕ
unfolding last_point
calc_add_percent_of_staking config amount = last_point 0 amount config.points

-- One of the points, or `percent`.
abbrev pub IsOneOf : ℕ → ℕ → List ℕ → Type 0
IsOneOf r percent [] = r ≡ percent
IsOneOf r percent (point ∷ points) = (r ≡ point) ⊎ IsOneOf r percent points

IsOneOf-next :
    (r percent point : ℕ) (points : List ℕ)
    → IsOneOf r point points
    → (r ≡ point) ⊎ IsOneOf r percent points
IsOneOf-next r percent point [] same = inl same
IsOneOf-next r percent point (p ∷ points) (inl here) = inr (inl here)
IsOneOf-next r percent point (p ∷ points) (inr later) =
    elim (IsOneOf-next r percent point points later) [
      | inl same ↦ inl same
      | inr found ↦ inr (inr found)
    ]

ascends :
    (prev point : ℕ) (points : List ℕ)
    → is_ascending prev (point ∷ points) ≡ true
    → (prev < point) × (is_ascending point points ≡ true)
unfolding is_ascending
ascends prev point points e = ground arith

beyond : (point amount : ℕ) → leb point amount ≡ false → ¬ (point ≤ amount)
beyond point amount h = ground arith

check_stake_config_lem :
    (is_hex_address : String → Bool) (config : StakeConfig)
    → check_stake_config is_hex_address config ≡ none
    → is_ascending 0 config.points ≡ true
unfolding check_stake_config
check_stake_config_lem is_hex_address config e = ground arith

-- `r` is the greatest of the points up to the amount, or `percent` if that is greater.
abbrev IsGreatest : (percent amount : ℕ) → List ℕ → ℕ → Type 0
IsGreatest percent amount points r =
    (r ≤ amount)
    × (percent ≤ r)
    × All (λ point. point ≤ amount → point ≤ r) points
    × IsOneOf r percent points

IsGreatest-same :
    (percent amount : ℕ) (points : List ℕ) (r r' : ℕ)
    → r ≡ r'
    → IsGreatest percent amount points r'
    → IsGreatest percent amount points r
IsGreatest-same percent amount points r r' e h = rw e h

last_point-IsGreatest :
    (percent amount : ℕ) (points : List ℕ) (prev : ℕ)
    → is_ascending prev points ≡ true
    → percent ≤ prev
    → percent ≤ amount
    → IsGreatest percent amount points (last_point percent amount points)
unfolding last_point
last_point-IsGreatest percent amount [] prev e le lt = (lt, omega arith, tt, refl)
last_point-IsGreatest percent amount (point ∷ points) prev e le lt =
    let (more, rest) = ascends prev point points e in
    elim (Bool-cases (leb point amount)) [
      | inl h ↦
          let (bound, above, all, one) =
            last_point-IsGreatest point amount points point rest (omega arith)
              (leb→le point amount h) in
          IsGreatest-same percent amount (point ∷ points) _ (last_point point amount points)
            (rw h refl)
            (bound, omega arith, (λ _. above, all), IsOneOf-next _ percent point points one)
      | inr h ↦
          let (bound, above, all, one) =
            last_point-IsGreatest percent amount points point rest (omega arith) lt in
          IsGreatest-same percent amount (point ∷ points) _ (last_point percent amount points)
            (rw h refl)
            (bound, above, (λ under. absurd (beyond point amount h under), all), inr one)
    ]

-- calcAddPercentOfStaking, for a configuration that checkStakeConfig passes: the result is the
-- greatest of the configured points that the amount reaches, and zero if there is none.
pub calc_add_percent_of_staking-Greatest :
    (is_hex_address : String → Bool) (config : StakeConfig) (amount : ℕ)
    → check_stake_config is_hex_address config ≡ none
    → let r = calc_add_percent_of_staking config amount in
      (r ≤ amount)
      × All (λ point. point ≤ amount → point ≤ r) config.points
      × IsOneOf r 0 config.points
unfolding calc_add_percent_of_staking
calc_add_percent_of_staking-Greatest is_hex_address config amount e =
    let (bound, _, all, one) =
      last_point-IsGreatest 0 amount config.points 0
        (check_stake_config_lem is_hex_address config e) (omega arith) (omega arith) in
    (bound, all, one)
