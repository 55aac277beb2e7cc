-- ===== src/Database/Store.antt =====
-- A collection of the database: its records by their keys, no key twice. TryDoTimes of
-- mongodb/api.go.
use text.Mathlib.Text.{◌==◌ as str_eq}
use anytoken_distribution.Base.{
  ℕ, zero, suc, String, Option, none, some, List, [], ◌∷◌, ◌++◌, Bool, true, false, if◌then◌else◌,
}

-- How a call of the driver ends.
pub data DbResult : Type 0 where
  done duplicate broken : DbResult

abbrev pub is_fine : DbResult → Bool
is_fine done = true
is_fine duplicate = true
is_fine broken = false

-- The loop of TryDoTimes over the results of the calls: the result, and the number of calls.
unfoldable pub try_from : (rounds : ℕ) → (ℕ → DbResult) → (call : ℕ) → Bool × ℕ
try_from zero f call = (false, call)
try_from (suc rounds) f call =
    let rest = try_from rounds f (suc call) in if is_fine (f call) then (true, suc call) else rest

abbrev pub retry_db_count : ℕ
retry_db_count = 3

unfoldable pub try_do_times : (ℕ → DbResult) → Bool × ℕ
unfolding try_from
try_do_times f = try_from retry_db_count f 0

module _ {R : Type 0} where
  unfoldable pub find_id : String → List (String × R) → Option R
  find_id key [] = none
  find_id key ((k, r) ∷ store) =
      let rest = find_id key store in if str_eq k key then some r else rest

  unfoldable pub update_id : String → (R → R) → List (String × R) → List (String × R)
  update_id key change [] = []
  update_id key change ((k, r) ∷ store) =
      let rest = update_id key change store in
      if str_eq k key then (k, change r) ∷ store else (k, r) ∷ rest

  -- The update of the record with the key, or the insertion of a new one if there is none.
  abbrev pub put_result : Option R → String → R → (R → R) → List (String × R) → List (String × R)
  put_result none key new change store = store ++ (key, new) ∷ []
  put_result (some old) key new change store = update_id key change store
