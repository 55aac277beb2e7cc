-- ===== src/Worker/UpToDate.antt =====
-- updateLiquidityDailyOnce brings an exchange up to date: each day is updated, once.
use anytoken_distribution.Base.{
  ℕ, zero, suc, ◌+◌, ◌%◌, ◌≤◌, ◌<◌, ◌≡◌, refl, Option, none, some, List, [], ◌∷◌, Bool, true, false,
  ltb, leb, add64, word, arith, Bool-cases, inl, inr, leb→le, ltb→lt,
}
use anytoken_distribution.Worker.Daily.{
  seconds_per_day, get_day_begin, UpdateResult, update_date, from_time, update_days,
  update_liquidity_daily_once,
}

-- The days follow one another from `from`, and the next is after `today`.
abbrev pub Daily : (from today : ℕ) → List ℕ → Type 0
Daily from today [] = today < from
Daily from today (day ∷ days) =
    (day ≡ from) × (day ≤ today) × Daily (from + seconds_per_day) today days

abbrev pub Updates : (ℕ → List UpdateResult) → Type 0
Updates results = (day : ℕ) → update_date (results day) ≡ some true

-- A run that has ended, and has updated the days.
abbrev Runs : (from today : ℕ) → List ℕ × Bool → Type 0
Runs from today (days, done) = (done ≡ true) × Daily from today days

not_leb : (a b : ℕ) → leb a b ≡ false → b < a
not_leb a b e = ground arith

before : (a b : ℕ) → b < a → leb a b ≡ false
before a b e = ground arith

Runs-cons :
    (from today : ℕ) (rest : List ℕ × Bool)
    → from ≤ today
    → Runs (from + seconds_per_day) today rest
    → Runs from today (from ∷ rest.0, rest.1)
Runs-cons from today rest le (ended, days) = (ended, (refl, le, days))

get_day_begin_bounds :
    (now : ℕ)
    → now < word
    → (get_day_begin now % seconds_per_day ≡ 0)
      × (get_day_begin now ≤ now)
      × (now < get_day_begin now + seconds_per_day)
unfolding get_day_begin
get_day_begin_bounds now small = (omega arith, omega arith, omega arith)

update_days-Daily :
    (fuel : ℕ) (results : ℕ → List UpdateResult) (from today : ℕ)
    → Updates results
    → today + seconds_per_day < word
    → today < from + fuel
    → Runs from today (update_days (suc fuel) results from today)
unfolding update_days
update_days-Daily zero results from today updates small enough =
    rw (before from today (omega arith), update_days) (refl, omega arith)
update_days-Daily (suc fuel) results from today updates small enough =
    elim (Bool-cases (leb from today)) [
      | inr e ↦ rw (e, update_days) (refl, not_leb from today e)
      | inl e ↦
          let le = leb→le from today e in
          let next : add64 from seconds_per_day ≡ from + seconds_per_day = omega arith in
          let rest =
            update_days-Daily fuel results (from + seconds_per_day) today updates small
              (omega arith) in
          let same : (n : ℕ)
              → n ≡ from + seconds_per_day
              → Runs (from + seconds_per_day) today (update_days (suc fuel) results n today) =
            λ n here. rw here rest in
          rw (e, updates from, update_days)
            (Runs-cons from today _ le (same (add64 from seconds_per_day) next))
    ]

-- The first day to update: the day after the latest liquidity, or the day of the creation.
abbrev pub StartsAfter : Option ℕ → (created from : ℕ) → Type 0
StartsAfter none created from = (from ≤ created) × (created < from + seconds_per_day)
StartsAfter (some latest) created from = (latest < from) × (from ≤ latest + seconds_per_day)

abbrev pub IsSmall : Option ℕ → ℕ → Type 0
IsSmall none created = created < word
IsSmall (some latest) created = latest + seconds_per_day < word

from_time-StartsAfter :
    (latest : Option ℕ) (created : ℕ)
    → IsSmall latest created
    → StartsAfter latest created (from_time latest created)
      × (from_time latest created % seconds_per_day ≡ 0)
unfolding from_time get_day_begin
from_time-StartsAfter none created small = ((omega arith, omega arith), omega arith)
from_time-StartsAfter (some latest) created small = ((omega arith, omega arith), omega arith)

-- updateLiquidityDailyOnce, for one exchange, where updateDateLiquidity comes to succeed for each
-- day, for timestamps that do not overflow and fuel for more rounds than there are seconds from the
-- first day to now: the loop ends; the days that it updates begin at midnight, follow one another
-- from the first day after the latest liquidity (or the day of the creation), and the next one is
-- after the midnight before `now`, so none is left out and none is updated twice.
pub update_liquidity_daily_once-Daily :
    (fuel : ℕ) (results : ℕ → List UpdateResult) (latest : Option ℕ) (created now : ℕ)
    → Updates results
    → IsSmall latest created
    → now + seconds_per_day < word
    → now < fuel
    → let (days, done) = update_liquidity_daily_once (suc fuel) results latest created now in
      (from today : ℕ) × (done ≡ true)
      × Daily from today days
      × StartsAfter latest created from
      × (from % seconds_per_day ≡ 0)
      × (today % seconds_per_day ≡ 0)
      × (today ≤ now)
      × (now < today + seconds_per_day)
unfolding update_liquidity_daily_once
update_liquidity_daily_once-Daily fuel results latest created now updates fits small enough =
    let from = from_time latest created in
    let today = get_day_begin now in
    let (starts, even) = from_time-StartsAfter latest created fits in
    let (midnight, past, current) = get_day_begin_bounds now (omega arith) in
    elim (Bool-cases (ltb today from)) [
      | inl e ↦ rw e (from, today, refl, ltb→lt today from e, starts, even, midnight, past, current)
      | inr e ↦
          let (ended, days) =
            update_days-Daily fuel results from today updates (omega arith) (omega arith) in
          rw e (from, today, ended, days, starts, even, midnight, past, current)
    ]
