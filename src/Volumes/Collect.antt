-- ===== src/Volumes/Collect.antt =====
-- The map that FindAccountVolumes collects: the sum of the volumes of each account, once.
use anytoken_distribution.Base.{
  ℕ, zero, suc, ◌+◌, ◌≤◌, ◌≡◌, sym, ap, ◌∙◌, refl, Option, none, some, List, [], ◌∷◌, All, Bool,
  true, false, ◌==◌, if◌then◌else◌, arith, Bool-cases, Option-cases, inl, inr, ==_iff, gt→leb,
}
use anytoken_distribution.Int.{ℤ, pos, negsuc, ◌+ℤ◌, int_laws, is_nonpositive}
use anytoken_distribution.Reward.Stats.{AccountStat}
use anytoken_distribution.Reward.Fresh.{IsFresh, amount}
use anytoken_distribution.Config.Lookups.{is_excluded_reward_account}
use anytoken_distribution.Receipts.Records.{MgoVolumeHistory}
use anytoken_distribution.Volumes.Rearranged.{total, tally}
use anytoken_distribution.Volumes.Find.{
  Excluding, counted_volume, add_volume, add_counted, collect_volumes,
}

-- What an account has in a list of statistics, and how often it is there.
abbrev pub share_at : ℕ → AccountStat → ℤ
share_at a stat = if stat.account == a then amount stat.share else pos 0

abbrev pub entry_at : ℕ → AccountStat → ℕ
entry_at a stat = if stat.account == a then 1 else 0

abbrev pub share_in : ℕ → List AccountStat → ℤ
share_in a = total (share_at a)

abbrev pub entries_in : ℕ → List AccountStat → ℕ
entries_in a = tally (entry_at a)

-- The volume of the account in a record.
abbrev pub counted_at : ℕ → Option (ℕ × ℤ) → ℤ
counted_at a none = pos 0
counted_at a (some (account, volume)) = if account == a then volume else pos 0

share_in-add_volume :
    (a account : ℕ) (volume : ℤ) (stats : List AccountStat)
    → All IsFresh stats
    → share_in a (add_volume account volume stats)
      ≡ share_in a stats +ℤ counted_at a (some (account, volume))
unfolding add_volume
share_in-add_volume a account volume [] all = omega int_laws
share_in-add_volume a account volume (stat ∷ stats) (here, all) =
    elim (Bool-cases (stat.account == account)) [
      | inl e ↦
          let same : (stat.account == a) ≡ (account == a) =
            ap (λ n. n == a) ((==_iff stat.account account).0 e) in
          elim (Bool-cases (account == a)) [
            | inl c ↦ rw (e, here.shared, same, c) (omega int_laws)
            | inr c ↦ rw (e, here.shared, same, c) (omega int_laws)
          ]
      | inr e ↦ rw (e, share_in-add_volume a account volume stats all) (omega int_laws)
    ]

entries_in-add_volume :
    (a account : ℕ) (volume : ℤ) (stats : List AccountStat)
    → entries_in a (add_volume account volume stats) ≡ (
        if account == a
        then (if entries_in a stats == 0 then 1 else entries_in a stats)
        else entries_in a stats)
unfolding add_volume
entries_in-add_volume a account volume [] = ground arith
entries_in-add_volume a account volume (stat ∷ stats) =
    ground (arith, entries_in-add_volume a account volume stats)

IsFresh-add_volume :
    (account n : ℕ) (stats : List AccountStat)
    → All IsFresh stats
    → All IsFresh (add_volume account (pos (suc n)) stats)
unfolding add_volume
IsFresh-add_volume account n [] all = (record { units = n; shared = refl; unpaid = refl }, tt)
IsFresh-add_volume account n (stat ∷ stats) (here, all) =
    elim (Bool-cases (stat.account == account)) [
      | inl e ↦ rw e (
        record {
          units = here.units + suc n;
          shared = rw here.shared (ap some (omega int_laws));
          unpaid = here.unpaid;
        },
        all,
      )
      | inr e ↦ rw e (here, IsFresh-add_volume account n stats all)
    ]

-- One entry for each account at most.
abbrev pub AreSingle : List AccountStat → Type 0
AreSingle stats = (a : ℕ) → entries_in a stats ≤ 1

AreSingle-add_volume :
    (account : ℕ) (volume : ℤ) (stats : List AccountStat)
    → AreSingle stats
    → AreSingle (add_volume account volume stats)
AreSingle-add_volume account volume stats single a =
    ground (arith, single a, entries_in-add_volume a account volume stats)

abbrev kept_volume : ℕ → Bool → Option ℤ → Option (ℕ × ℤ)
kept_volume account excluded o = elim o [
  | none ↦ none
  | some volume ↦
      if is_nonpositive volume then none else if excluded then none else some (account, volume)
]

kept_volume-pos :
    (a : ℕ) (excluded : Bool) (o : Option ℤ) (account : ℕ) (volume : ℤ)
    → kept_volume a excluded o ≡ some (account, volume)
    → (n : ℕ) × (volume ≡ pos (suc n))
kept_volume-pos a excluded none account volume e = cc
kept_volume-pos a excluded (some (pos zero)) account volume e = cc
kept_volume-pos a true (some (pos (suc n))) account volume e =
    let passed : kept_volume a true (some (pos (suc n))) ≡ none =
      rw (gt→leb (suc n) 0 (omega arith)) refl in
    cc
kept_volume-pos a false (some (pos (suc n))) account volume e =
    let kept : kept_volume a false (some (pos (suc n))) ≡ some (a, pos (suc n)) =
      rw (gt→leb (suc n) 0 (omega arith)) refl in
    (n, ap (λ o. elim o [ none ↦ volume | some c ↦ c.1 ]) (sym e ∙ kept))
kept_volume-pos a excluded (some (negsuc n)) account volume e = cc

counted_volume-pos :
    (ex : Excluding) (mh : MgoVolumeHistory) (account : ℕ) (volume : ℤ)
    → counted_volume ex mh ≡ some (account, volume)
    → (n : ℕ) × (volume ≡ pos (suc n))
unfolding counted_volume
counted_volume-pos ex mh account volume e =
    let a = ex.lib.hex_to_address mh.account in
    kept_volume-pos a (is_excluded_reward_account ex.lib ex.exchanges ex.all a)
      (ex.lib.set_string mh.coin_amount) account volume e

-- What the account's volume in a record adds to the sums, whatever the record is.
add_counted_lem :
    (ex : Excluding) (mh : MgoVolumeHistory) (stats : List AccountStat)
    → All IsFresh stats
    → AreSingle stats
    → let stats' = add_counted (counted_volume ex mh) stats in
      All IsFresh stats'
      × AreSingle stats'
      × ((a : ℕ) → share_in a stats' ≡ share_in a stats +ℤ counted_at a (counted_volume ex mh))
add_counted_lem ex mh stats all single = elim (Option-cases (counted_volume ex mh)) [
  | inl e ↦ rw e (all, single, λ a. omega int_laws)
  | inr ((account, volume), e) ↦
      let (n, positive) = counted_volume-pos ex mh account volume e in
      rw (e, positive)
        (
          IsFresh-add_volume account n stats all,
          AreSingle-add_volume account (pos (suc n)) stats single,
          λ a. share_in-add_volume a account (pos (suc n)) stats all,
        )
]

-- The loop adds up the counted volumes, and keeps one fresh entry for each account.
pub collect_volumes_lem :
    (ex : Excluding) (records : List MgoVolumeHistory) (stats : List AccountStat)
    → All IsFresh stats
    → AreSingle stats
    → let stats' = collect_volumes ex records stats in
      All IsFresh stats'
      × AreSingle stats'
      × ((a : ℕ)
          → share_in a stats'
            ≡ share_in a stats +ℤ total (λ mh. counted_at a (counted_volume ex mh)) records)
unfolding collect_volumes
collect_volumes_lem ex [] stats all single = (all, single, λ a. omega int_laws)
collect_volumes_lem ex (mh ∷ records) stats all single =
    let (fresh, once, added) = add_counted_lem ex mh stats all single in
    let (all', single', shares) =
      collect_volumes_lem ex records (add_counted (counted_volume ex mh) stats) fresh once in
    (all', single', λ a. shares a ∙ rw (added a) (omega int_laws))
