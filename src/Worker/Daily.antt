-- ===== src/Worker/Daily.antt =====
-- worker/updateliquidity.go: the days that updateLiquidityDailyOnce updates for an exchange. A day
-- is given by the timestamp that it begins with.
use anytoken_distribution.Base.{
  ℕ, zero, suc, ◌%◌, Option, none, some, List, [], ◌∷◌, Bool, true, false, ltb, leb, if◌then◌else◌,
  add64, sub64,
}

abbrev pub seconds_per_day : ℕ
seconds_per_day = 86400

unfoldable pub get_day_begin : ℕ → ℕ
get_day_begin timestamp = sub64 timestamp (timestamp % seconds_per_day)

-- What updateDateLiquidity returns: nil, the error of a missing trie node, or another.
pub data UpdateResult : Type 0 where
  updated missing_trie_node failed : UpdateResult

-- The results of the calls for one day, which are repeated after `failed`: whether it was updated,
-- and `none` if it still fails after all.
unfoldable pub update_date : List UpdateResult → Option Bool
update_date [] = none
update_date (updated ∷ results) = some true
update_date (missing_trie_node ∷ results) = some false
update_date (failed ∷ results) = update_date results

-- `latest` is the timestamp of the latest liquidity in the database, and `created` that of the block
-- that the exchange was created in.
unfoldable pub from_time : Option ℕ → (created : ℕ) → ℕ
unfolding get_day_begin
from_time none created = get_day_begin created
from_time (some latest) created = add64 (get_day_begin latest) seconds_per_day

-- The days updated, and whether the loop has ended.
unfoldable pub update_days :
    (fuel : ℕ) → (ℕ → List UpdateResult) → (timestamp today : ℕ) → List ℕ × Bool
unfolding update_date
update_days zero results timestamp today = ([], false)
update_days (suc fuel) results timestamp today =
    let (days, done) = update_days fuel results (add64 timestamp seconds_per_day) today in
    elim (leb timestamp today) [
      | false ↦ ([], true)
      | true ↦ elim (update_date (results timestamp)) [
        | none ↦ ([], false)
        | some false ↦ ([], true)
        | some true ↦ (timestamp ∷ days, done)
      ]
    ]

-- updateLiquidityDailyOnce, for one exchange, on the day that `now` is in.
unfoldable pub update_liquidity_daily_once :
    (fuel : ℕ) → (ℕ → List UpdateResult) → Option ℕ → (created now : ℕ) → List ℕ × Bool
unfolding update_days get_day_begin from_time
update_liquidity_daily_once fuel results latest created now =
    let from = from_time latest created in
    let today = get_day_begin now in
    if ltb today from then ([], true) else update_days fuel results from today
