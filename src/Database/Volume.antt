-- ===== src/Database/Volume.antt =====
-- mongodb/api.go: UpdateVolumeWithReceipt, which adds the amounts of a purchase to the volumes of a
-- day. The calls of the driver succeed; FindVolume finds nothing where there is no record.
use text.Mathlib.Text.{◌==◌ as str_eq}
use anytoken_distribution.Base.{
  ℕ, String, Option, none, some, List, Bool, true, false, if◌then◌else◌,
}
use anytoken_distribution.Int.{ℤ, ◌+ℤ◌}
use anytoken_distribution.Outcome.{Outcome, returns, deref, ◌>>=◌}
use anytoken_distribution.Library.{Library}
use anytoken_distribution.Receipts.Records.{ExchangeReceipt}
use anytoken_distribution.Database.Store.{find_id}
use anytoken_distribution.Database.Insert.{get_key_of_exchange_and_timestamp, upsert_id}

-- The record, under its key.
pub record MgoVolume : Type 0 where
  pub exchange : String
  pub pairs : String
  pub coin_volume24h : String
  pub token_volume24h : String
  pub block_number : ℕ
  pub block_hash : String
  pub timestamp : ℕ

abbrev pub Volumes : Type 0
Volumes = List (String × MgoVolume)

-- The amounts of coins and of tokens, each nil if its text is no number; `none` is a log type that is
-- no purchase.
unfoldable pub purchase_amounts : Library → ExchangeReceipt → Option (Option ℤ × Option ℤ)
purchase_amounts lib exr =
    let from = lib.set_string exr.token_from_amount in
    let to = lib.set_string exr.token_to_amount in
    if str_eq exr.log_type "TokenPurchase"
    then some (from, to)
    else if str_eq exr.log_type "EthPurchase"
    then some (to, from)
    else none

-- big.Int.String of a pointer.
abbrev pub text_of : Library → Option ℤ → String
text_of lib none = "<nil>"
text_of lib (some n) = lib.int_string n

-- The volume with an old one, where neither may be nil; without, the amount itself.
unfoldable pub grown : Library → Option ℤ → Option String → Outcome String
grown lib amount none = returns (text_of lib amount)
grown lib amount (some old_text) = do
  n ← deref amount
  old ← deref (lib.set_string old_text)
  returns (lib.int_string (n +ℤ old))

abbrev pub volume_record :
    ExchangeReceipt
    → (block_hash : String) → (block_number timestamp : ℕ) → (coins tokens : String) → MgoVolume
volume_record exr block_hash block_number timestamp coins tokens = record {
  exchange = exr.exchange;
  pairs = exr.pairs;
  coin_volume24h = coins;
  token_volume24h = tokens;
  block_number = block_number;
  block_hash = block_hash;
  timestamp = timestamp;
}

abbrev pub coins_in : Option MgoVolume → Option String
coins_in none = none
coins_in (some v) = some v.coin_volume24h

abbrev pub tokens_in : Option MgoVolume → Option String
tokens_in none = none
tokens_in (some v) = some v.token_volume24h

unfoldable pub add_amounts :
    Library
    → ExchangeReceipt
    → (block_hash : String) → (block_number timestamp : ℕ) → Option (Option ℤ × Option ℤ)
    → Volumes
    → Outcome (Bool × Volumes)
unfolding grown get_key_of_exchange_and_timestamp find_id upsert_id
add_amounts lib exr block_hash block_number timestamp none store = returns (false, store)
add_amounts lib exr block_hash block_number timestamp (some (coins, tokens)) store =
    let key = get_key_of_exchange_and_timestamp lib exr.exchange timestamp in
    (do
      coins' ← grown lib coins (coins_in (find_id key store))
      tokens' ← grown lib tokens (tokens_in (find_id key store))
      returns (
        true,
        upsert_id key (volume_record exr block_hash block_number timestamp coins' tokens') store,
      ))

-- UpdateVolumeWithReceipt: whether it ends without an error, and the volumes.
unfoldable pub update_volume_with_receipt :
    Library
    → ExchangeReceipt
    → (block_hash : String) → (block_number timestamp : ℕ) → Volumes
    → Outcome (Bool × Volumes)
unfolding purchase_amounts add_amounts
update_volume_with_receipt lib exr block_hash block_number timestamp store =
    add_amounts lib exr block_hash block_number timestamp (purchase_amounts lib exr) store
