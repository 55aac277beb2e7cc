-- ===== src/Database/Insert.antt =====
-- mongodb/api.go: the insertions into collections, with the keys of mongodb/tables.go. The calls of
-- the driver succeed, but for a key that is there already.
use Prim.Native.String.{◌++◌ as ◌+++◌}
use anytoken_distribution.Base.{
  ℕ, String, Option, none, some, List, [], ◌∷◌, ◌++◌, Bool, if◌then◌else◌,
}
use anytoken_distribution.Library.{Library}
use anytoken_distribution.Database.Store.{DbResult, done, duplicate, find_id, update_id}

-- GetKeyOfRewardResult and GetKeyOfLiquidityBalance, which are the same function.
unfoldable pub key_of_three : Library → (exchange account : String) → (number : ℕ) → String
key_of_three lib exchange account number =
    lib.to_lower (exchange +++ ":" +++ account +++ ":" +++ lib.format_uint number)

-- GetKeyOfExchangeAndAccount and GetKeyOfTokenAndAccount.
unfoldable pub key_of_two : Library → (exchange account : String) → String
key_of_two lib exchange account = lib.to_lower (exchange +++ ":" +++ account)

unfoldable pub get_key_of_exchange_and_timestamp : Library → String → (timestamp : ℕ) → String
get_key_of_exchange_and_timestamp lib exchange timestamp =
    lib.to_lower (exchange +++ ":" +++ lib.format_uint timestamp)

module _ {R : Type 0} where
  abbrev pub insert_new : Option R → String → R → List (String × R) → DbResult × List (String × R)
  insert_new none key new store = (done, store ++ (key, new) ∷ [])
  insert_new (some old) key new store = (duplicate, store)

  -- Collection.Insert: a key that is there already is a duplicate.
  unfoldable pub insert_id : String → R → List (String × R) → DbResult × List (String × R)
  unfolding find_id
  insert_id key new store = insert_new (find_id key store) key new store

  abbrev pub replace_or_insert : Option R → String → R → List (String × R) → List (String × R)
  replace_or_insert none key new store = store ++ (key, new) ∷ []
  replace_or_insert (some old) key new store = update_id key (λ _. new) store

  -- Collection.UpsertId
  unfoldable pub upsert_id : String → R → List (String × R) → List (String × R)
  unfolding find_id
  upsert_id key new store = replace_or_insert (find_id key store) key new store

  -- AddBlock, AddTransaction, AddLiquidity, AddVolume: the result is the driver's.
  unfoldable pub add_or_overwrite :
      (overwrite : Bool) → String → R → List (String × R) → DbResult × List (String × R)
  unfolding insert_id upsert_id
  add_or_overwrite overwrite key new store =
      if overwrite then (done, upsert_id key new store) else insert_id key new store

  abbrev pub forgive : DbResult × List (String × R) → DbResult × List (String × R)
  forgive (duplicate, store) = (done, store)
  forgive (result, store) = (result, store)

  -- AddVolumeHistory, and without `overwrite` AddAccount, AddTokenAccount and AddLiquidityBalance: a
  -- duplicate is no error.
  unfoldable pub add_once :
      (overwrite : Bool) → String → R → List (String × R) → DbResult × List (String × R)
  unfolding add_or_overwrite
  add_once overwrite key new store = forgive (add_or_overwrite overwrite key new store)
