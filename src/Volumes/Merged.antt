-- ===== src/Volumes/Merged.antt =====
-- The map of all steps: it takes over the rewards of a step, and keeps one entry for each account.
use anytoken_distribution.Base.{
  ℕ, suc, ◌+◌, ◌<◌, ◌≡◌, ap, refl, some, List, [], ◌∷◌, All, length, true, false, ◌==◌,
  if◌then◌else◌, arith, Bool-cases, inl, inr, add64, leb,
}
use anytoken_distribution.Int.{pos, ◌+ℤ◌, int_laws}
use anytoken_distribution.Outcome.{Outcome, returns}
use anytoken_distribution.Reward.Stats.{AccountStat}
use anytoken_distribution.Reward.Fresh.{granted, amount}
use anytoken_distribution.Volumes.Collect.{AreSingle, entries_in}
use anytoken_distribution.Volumes.Rewards.{
  add_rewarded, add_if_rewarded, is_rewarded, merge_stats, close_step,
}
use anytoken_distribution.Volumes.Paid.{IsPaid}

-- What a statistic that is added to the map leaves there.
abbrev Adds : AccountStat → List AccountStat → Outcome (List AccountStat) → Type 0
Adds stat fins o =
    (fins' : List AccountStat) × (o ≡ returns fins')
    × All IsPaid fins'
    × (granted fins' ≡ granted fins +ℤ amount stat.reward)
    × ((a : ℕ)
        → entries_in a fins' ≡ (
            if stat.account == a
            then (if entries_in a fins == 0 then 1 else entries_in a fins)
            else entries_in a fins))

add_rewarded-Adds :
    (stat : AccountStat) (fins : List AccountStat)
    → IsPaid stat
    → All IsPaid fins
    → Adds stat fins (add_rewarded stat fins)
unfolding add_rewarded
add_rewarded-Adds stat [] paid all =
    (stat ∷ [], refl, (paid, tt), omega int_laws, λ a. ground arith)
add_rewarded-Adds stat (fin ∷ fins) paid (here, all) =
    let (fins', run, alls, got, entries) = add_rewarded-Adds stat fins paid all in
    elim (Bool-cases (fin.account == stat.account)) [
      | inr e ↦ (
        fin ∷ fins',
        rw (e, run) refl,
        (here, alls),
        rw got (omega int_laws),
        λ a. ground (arith, entries a),
      )
      | inl e ↦ (
        record fin {
          reward = some (pos here.units_paid +ℤ pos paid.units_paid);
          share = some (pos (suc here.units) +ℤ pos (suc paid.units));
          number = add64 fin.number stat.number;
        }
            ∷ fins,
        rw (e, here.paid, paid.paid, here.shared, paid.shared) refl,
        (
          record {
            units = here.units + suc paid.units;
            shared = ap some (omega int_laws);
            units_paid = here.units_paid + paid.units_paid;
            paid = ap some (omega int_laws);
          },
          all,
        ),
        rw (here.paid, paid.paid) (omega int_laws),
        λ a. ground (arith, e),
      )
    ]

-- The map after the statistics, which pay `paid` in all.
abbrev pub Merges : List AccountStat → List AccountStat → Outcome (List AccountStat) → Type 0
Merges stats fins o =
    (fins' : List AccountStat) × (o ≡ returns fins')
    × All IsPaid fins'
    × AreSingle fins'
    × (granted fins' ≡ granted fins +ℤ granted stats)

paid-zero : (u : ℕ) → (if leb u 0 then false else true) ≡ false → u ≡ 0
paid-zero u e = ground arith

unrewarded-zero :
    (stat : AccountStat) (paid : IsPaid stat) → is_rewarded stat ≡ false → paid.units_paid ≡ 0
unrewarded-zero stat paid e = paid-zero paid.units_paid (rw paid.paid at e)

add_if_rewarded-Merges :
    (stat : AccountStat) (fins : List AccountStat)
    → IsPaid stat
    → All IsPaid fins
    → AreSingle fins
    → Merges (stat ∷ []) fins (add_if_rewarded stat fins)
add_if_rewarded-Merges stat fins paid all single = elim (Bool-cases (is_rewarded stat)) [
  | inl e ↦
      let (fins', run, alls, got, entries) = add_rewarded-Adds stat fins paid all in
      (
        fins',
        rw (e, run) refl,
        alls,
        λ a. ground (arith, entries a, single a),
        rw got (omega int_laws),
      )
  | inr e ↦
      (fins, rw e refl, all, single, rw (paid.paid, unrewarded-zero stat paid e) (omega int_laws))
]

pub merge_stats-Merges :
    (stats fins : List AccountStat)
    → All IsPaid stats
    → All IsPaid fins
    → AreSingle fins
    → Merges stats fins (merge_stats stats fins)
unfolding merge_stats
merge_stats-Merges [] fins paid all single = (fins, refl, all, single, omega int_laws)
merge_stats-Merges (stat ∷ stats) fins (here, paid) all single =
    let (fins1, run1, all1, single1, got1) = add_if_rewarded-Merges stat fins here all single in
    let (fins2, run2, all2, single2, got2) = merge_stats-Merges stats fins1 paid all1 single1 in
    (fins2, rw (run1, run2) refl, all2, single2, rw (got2, got1) (omega int_laws))

pub close_step_full :
    (start : ℕ) (stats fins fins' : List AccountStat) (starts : List ℕ)
    → 0 < length stats
    → merge_stats stats fins ≡ returns fins'
    → close_step start stats (fins, starts) ≡ returns (fins', starts)
close_step_full start [] fins fins' starts h e = absurd (omega arith)
close_step_full start (stat ∷ stats) fins fins' starts h e = rw e refl
