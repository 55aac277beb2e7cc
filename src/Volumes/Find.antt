-- ===== src/Volumes/Find.antt =====
-- mongodb/api.go, FindAccountVolumes, and mongodb/types.go, ConvertToSortedSlice. A map from accounts
-- is the list of its values.
use text.Mathlib.Text.{◌==◌ as str_eq}
use anytoken_distribution.Base.{
  ℕ, String, Option, none, some, List, [], ◌∷◌, Bool, true, false, ◌&&◌, leb, ltb, ◌==◌,
  if◌then◌else◌, add64,
}
use anytoken_distribution.Int.{ℤ, ◌+ℤ◌, is_nonpositive}
use anytoken_distribution.Library.{Library}
use anytoken_distribution.Config.Exchanges.{ExchangeConfig}
use anytoken_distribution.Config.Lookups.{AllPairs, is_excluded_reward_account}
use anytoken_distribution.Receipts.Records.{MgoVolumeHistory}
use anytoken_distribution.Reward.Stats.{AccountStat}
use mathlib.Core.Option

-- What the database and the sort of Go's library do: the records that a query finds, and a slice in
-- the order of AccountStatSlice.Less. The order that Go goes through a map in is left to `sort`.
pub record VolumeDb : Type 0 where
  pub find : (MgoVolumeHistory → Bool) → List MgoVolumeHistory
  pub sort : List AccountStat → List AccountStat

-- The configuration that excludes accounts.
pub record Excluding : Type 0 where
  pub lib : Library
  pub exchanges : List ExchangeConfig
  pub all : AllPairs

-- The conditions of the query.
unfoldable pub volume_query : Library → String → (start end : ℕ) → Bool → MgoVolumeHistory → Bool
volume_query lib exchange start end use_timestamp mh =
    let at = if use_timestamp then mh.timestamp else mh.block_number in
    str_eq mh.exchange (lib.to_lower exchange) && (leb start at && ltb at end)

-- The account and volume of a record that is not passed over.
unfoldable pub counted_volume : Excluding → MgoVolumeHistory → Option (ℕ × ℤ)
counted_volume ex mh = elim (ex.lib.set_string mh.coin_amount) [
  | none ↦ none
  | some volume ↦
      let account = ex.lib.hex_to_address mh.account in
      if is_nonpositive volume
      then none
      else if is_excluded_reward_account ex.lib ex.exchanges ex.all account
      then none
      else some (account, volume)
]

-- The entry of the account in the map; its share is not nil.
unfoldable pub add_volume : (account : ℕ) → ℤ → List AccountStat → List AccountStat
add_volume account volume [] =
    record { account = account; reward = none; share = some volume; number = 1 } ∷ []
add_volume account volume (stat ∷ stats) =
    let rest = add_volume account volume stats in
    if stat.account == account
    then record stat {
      share = Option.map (λ share. share +ℤ volume) stat.share;
      number = add64 stat.number 1;
    }
      ∷ stats
    else stat ∷ rest

abbrev pub add_counted : Option (ℕ × ℤ) → List AccountStat → List AccountStat
add_counted none stats = stats
add_counted (some (account, volume)) stats = add_volume account volume stats

-- The loop over the records.
unfoldable pub collect_volumes :
    Excluding → List MgoVolumeHistory → List AccountStat → List AccountStat
unfolding counted_volume add_volume
collect_volumes ex [] stats = stats
collect_volumes ex (mh ∷ records) stats =
    collect_volumes ex records (add_counted (counted_volume ex mh) stats)

abbrev pub has_share : AccountStat → Bool
has_share stat = elim stat.share [
  | none ↦ false
  | some share ↦ if is_nonpositive share then false else true
]

unfoldable pub with_shares : List AccountStat → List AccountStat
with_shares [] = []
with_shares (stat ∷ stats) =
    let rest = with_shares stats in if has_share stat then stat ∷ rest else rest

unfoldable pub convert_to_sorted_slice :
    (List AccountStat → List AccountStat) → List AccountStat → List AccountStat
unfolding with_shares
convert_to_sorted_slice sort stats = sort (with_shares stats)

unfoldable pub find_account_volumes :
    Excluding → VolumeDb → String → (start end : ℕ) → Bool → List AccountStat
unfolding convert_to_sorted_slice collect_volumes volume_query
find_account_volumes ex db exchange start end use_timestamp =
    let records = db.find (volume_query ex.lib exchange start end use_timestamp) in
    convert_to_sorted_slice db.sort (collect_volumes ex records [])
