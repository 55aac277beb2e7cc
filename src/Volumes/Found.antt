-- ===== src/Volumes/Found.antt =====
-- FindAccountVolumes as a whole: a table of the accounts with their volumes.
use mathlib.Core.List.{Permᴰ}
use anytoken_distribution.Base.{
  ℕ, ◌≡◌, sym, ◌∙◌, refl, List, [], ◌∷◌, ◌≤◌, String, All, Bool, subst, gt→leb, arith, suc,
}
use anytoken_distribution.Int.{ℤ, int_laws}
use anytoken_distribution.Reward.Stats.{AccountStat}
use anytoken_distribution.Reward.Fresh.{IsFresh}
use anytoken_distribution.Receipts.Records.{MgoVolumeHistory}
use anytoken_distribution.Volumes.Rearranged.{total, keep, total-Permᴰ, tally-Permᴰ, All-Permᴰ}
use anytoken_distribution.Volumes.Find.{
  Excluding, VolumeDb, volume_query, counted_volume, collect_volumes, with_shares,
  convert_to_sorted_slice, find_account_volumes,
}
use anytoken_distribution.Volumes.Collect.{
  collect_volumes_lem, share_in, share_at, entry_at, AreSingle, counted_at,
}

pub with_shares-fresh : (stats : List AccountStat) → All IsFresh stats → with_shares stats ≡ stats
unfolding with_shares
with_shares-fresh [] all = refl
with_shares-fresh (stat ∷ stats) (here, all) =
    rw (here.shared, gt→leb (suc here.units) 0 (omega arith), with_shares-fresh stats all) refl

-- What the database and the sort do with a stored table: a query finds the records that pass it, in
-- some order, and a sort rearranges.
pub record Stores (stored : List MgoVolumeHistory) (db : VolumeDb) : Type 0 where
  pub finds : (query : MgoVolumeHistory → Bool) → Permᴰ (keep query stored) (db.find query)
  pub sorts : (stats : List AccountStat) → Permᴰ stats (db.sort stats)

-- The counted volume of the account in the records of the exchange and the range.
abbrev pub volume_in : Excluding → List MgoVolumeHistory → String → (start end : ℕ) → Bool → ℕ → ℤ
volume_in ex stored exchange start end use_timestamp a =
    total (λ mh. counted_at a (counted_volume ex mh))
      (keep (volume_query ex.lib exchange start end use_timestamp) stored)

-- FindAccountVolumes over a stored table, whatever order the database and the sort give: each entry
-- has a positive share and no reward, no account has two entries, and the share of each account is
-- the sum of its volumes that count, in the stored records of the exchange and the range; an account
-- without such volumes has no share.
pub find_account_volumes-total :
    (ex : Excluding) (db : VolumeDb) (stored : List MgoVolumeHistory) (exchange : String)
    (start end : ℕ) (use_timestamp : Bool)
    → Stores stored db
    → let stats = find_account_volumes ex db exchange start end use_timestamp in
      All IsFresh stats
      × AreSingle stats
      × ((a : ℕ) → share_in a stats ≡ volume_in ex stored exchange start end use_timestamp a)
unfolding find_account_volumes convert_to_sorted_slice
find_account_volumes-total ex db stored exchange start end use_timestamp stores =
    let query = volume_query ex.lib exchange start end use_timestamp in
    let records = db.find query in
    let stats = collect_volumes ex records [] in
    let (fresh, single, shares) = collect_volumes_lem ex records [] tt (λ a. omega arith) in
    let kept = with_shares-fresh stats fresh in
    let sorted : Permᴰ stats (db.sort (with_shares stats)) =
      subst (λ kept. Permᴰ stats (db.sort kept)) (sym kept) (stores.sorts stats) in
    (
      All-Permᴰ IsFresh sorted fresh,
      λ a. subst (λ n. n ≤ 1) (tally-Permᴰ (entry_at a) sorted) (single a),
      λ a.
          sym (total-Permᴰ (share_at a) sorted)
          ∙ shares a
          ∙ rw (← total-Permᴰ (λ mh. counted_at a (counted_volume ex mh)) (stores.finds query))
              (omega int_laws),
    )
