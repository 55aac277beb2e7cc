-- ===== src/Reward/Calc.antt =====
-- CalcRewards: a slice's rewards add up to its total, and nothing else of it changes.
use anytoken_distribution.Base.{
  ◌≡◌, refl, ap, ◌∙◌, List, [], ◌∷◌, map, length, some, none, arith, ==_iff, Option-cases,
  length-map, inl, inr, gt→leb,
}
use anytoken_distribution.Int.{ℤ, pos, ◌≤ℤ◌, pos_part, sum}
use anytoken_distribution.Outcome.{returns, deref_all, deref_all-some, length-deref_all}
use anytoken_distribution.Reward.Divide.{divide_rewards}
use anytoken_distribution.Reward.Exact.{divide_rewards_exact}
use anytoken_distribution.Reward.Fair.{AllFair, divide_rewards-AllFair}
use anytoken_distribution.Reward.Stats.{
  AccountStat, rewards_of, basis, assign_rewards, calc_rewards, calc_total_reward,
}

-- A statistic without its reward.
abbrev pub unrewarded : AccountStat → AccountStat
unrewarded stat = record stat { reward = none }

assign-unrewarded :
    (rewards : List ℤ) (s : List AccountStat)
    → map unrewarded (assign_rewards rewards s) ≡ map unrewarded s
unfolding assign_rewards
assign-unrewarded [] [] = refl
assign-unrewarded (r ∷ rewards) [] = refl
assign-unrewarded [] (stat ∷ s) = refl
assign-unrewarded (r ∷ rewards) (stat ∷ s) =
    ap (λ rest. unrewarded stat ∷ rest) (assign-unrewarded rewards s)

pub rewards_of-assign :
    (rewards : List ℤ) (s : List AccountStat)
    → length rewards ≡ length s
    → rewards_of (assign_rewards rewards s) ≡ map some rewards
unfolding assign_rewards
rewards_of-assign [] [] e = refl
rewards_of-assign [] (stat ∷ s) e = ground arith
rewards_of-assign (r ∷ rewards) [] e = ground arith
rewards_of-assign (r ∷ rewards) (stat ∷ s) e =
    ap (λ rest. some r ∷ rest) (rewards_of-assign rewards s (omega arith))

length-basis : (first : AccountStat) (s : List AccountStat) → length (basis first s) ≡ length s
length-basis first s = elim (Option-cases first.reward) [
  | inl e ↦ rw e (length-map s (λ stat. stat.share))
  | inr (r, e) ↦ rw e (length-map s (λ stat. stat.reward))
]

-- What CalcRewards does to a slice once it divides the total by `values`.
pub calc_rewards_lem :
    (total : ℤ) (first : AccountStat) (s : List AccountStat) (values : List ℤ)
    → pos 1 ≤ℤ total
    → deref_all (basis first (first ∷ s)) ≡ returns values
    → pos 1 ≤ℤ sum values
    → (length (divide_rewards total values) ≡ length (first ∷ s))
      × (calc_rewards (some total) (first ∷ s)
          ≡ returns (assign_rewards (divide_rewards total values) (first ∷ s)))
unfolding calc_rewards
calc_rewards_lem total first s values ht e hv =
    let same : length (divide_rewards total values) ≡ length (first ∷ s) =
      (divide_rewards_exact total values hv).0
      ∙ length-deref_all (basis first (first ∷ s)) e
      ∙ length-basis first (first ∷ s) in
    (same, rw (gt→leb (pos_part total) 0 (omega arith), e, (==_iff _ _).1 same))

-- CalcRewards, for a positive total and values with a positive sum (the earlier rewards if the
-- first account has one, and else the shares, none of them nil): it returns; the new rewards add up
-- to the total and each is fair to its value; accounts, shares, numbers and order stay.
pub calc_rewards_exact :
    (total : ℤ) (first : AccountStat) (s : List AccountStat) (values : List ℤ)
    → pos 1 ≤ℤ total
    → deref_all (basis first (first ∷ s)) ≡ returns values
    → pos 1 ≤ℤ sum values
    → (s' : List AccountStat) × (calc_rewards (some total) (first ∷ s) ≡ returns s')
      × (calc_total_reward s' ≡ returns total)
      × (rewards_of s' ≡ map some (divide_rewards total values))
      × AllFair total (sum values) values (divide_rewards total values)
      × (map unrewarded s' ≡ map unrewarded (first ∷ s))
unfolding calc_total_reward
calc_rewards_exact total first s values ht e hv =
    let (same, run) = calc_rewards_lem total first s values ht e hv in
    let rewards = divide_rewards total values in
    let new = rewards_of-assign rewards (first ∷ s) same in
    (
      assign_rewards rewards (first ∷ s),
      run,
      rw (new, deref_all-some rewards) (ap returns (divide_rewards_exact total values hv).1),
      new,
      divide_rewards-AllFair total values hv,
      assign-unrewarded rewards (first ∷ s),
    )
