-- ===== src/Worker/Tests.antt =====
-- updateLiquidityDailyOnce on two missing days.
use anytoken_distribution.Base.{ℕ, ◌+◌, ◌%◌, ◌≤◌, ◌<◌, ◌≡◌, refl, some, List, [], ◌∷◌, true, arith}
use anytoken_distribution.Worker.Daily.{
  seconds_per_day, updated, failed, UpdateResult, update_date, update_days, get_day_begin,
  from_time, update_liquidity_daily_once,
}
use anytoken_distribution.Worker.UpToDate.{
  Daily, StartsAfter, Updates, update_liquidity_daily_once-Daily,
}

-- The first call for a day fails.
abbrev results : ℕ → List UpdateResult
results day = failed ∷ updated ∷ []

results-Updates : Updates results
unfolding update_date
results-Updates day = refl

update-two_days :
    update_liquidity_daily_once 5 results (some 90000) 0 300000 ≡ (172800 ∷ 259200 ∷ [], true)
unfolding update_liquidity_daily_once update_days update_date get_day_begin from_time
update-two_days = refl

update_liquidity_daily_once-Daily_example :
    let (days, done) = update_liquidity_daily_once 300002 results (some 90000) 0 300000 in
    (from today : ℕ) × (done ≡ true)
    × Daily from today days
    × StartsAfter (some 90000) 0 from
    × (from % seconds_per_day ≡ 0)
    × (today % seconds_per_day ≡ 0)
    × (today ≤ 300000)
    × (300000 < today + seconds_per_day)
update_liquidity_daily_once-Daily_example =
    update_liquidity_daily_once-Daily 300001 results (some 90000) 0 300000 results-Updates
      (omega arith) (omega arith) (omega arith)
