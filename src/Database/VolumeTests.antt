-- ===== src/Database/VolumeTests.antt =====
-- The purchases of a day at an exchange, and the insertion of records.
use anytoken_distribution.Base.{String, ◌≡◌, refl, none, some, [], ◌∷◌, false, ◌==◌, if◌then◌else◌}
use text.Mathlib.Text.{◌==◌ as str_eq}
use anytoken_distribution.Int.{ℤ, pos}
use anytoken_distribution.Outcome.{returns}
use anytoken_distribution.Library.{Library}
use anytoken_distribution.Library.Sample.{sample}
use anytoken_distribution.Receipts.Records.{ExchangeReceipt}
use anytoken_distribution.Database.Store.{find_id}
use anytoken_distribution.Database.Insert.{get_key_of_exchange_and_timestamp}
use anytoken_distribution.Database.Volume.{Volumes, purchase_amounts}
use anytoken_distribution.Database.DayUpdate.{
  Purchase, update_day, coin_sum, token_sum, AreReadable, HasVolumes,
}
use anytoken_distribution.Database.DailyVolume.{update_day-HasVolumes}

abbrev text_of_int : ℤ → String
text_of_int (pos n) = if n == 7 then "7" else if n == 14 then "14" else "0"
text_of_int _ = "0"

-- The numbers 0, 7 and 14 can be read.
abbrev lib : Library
lib = record sample {
  int_string = text_of_int;
  set_string = λ s.
      if str_eq s "7"
      then some (pos 7)
      else if str_eq s "14"
      then some (pos 14)
      else if str_eq s "0"
      then some (pos 0)
      else none;
}

abbrev bought : ExchangeReceipt
bought = record {
  log_type = "TokenPurchase";
  log_index = 0;
  exchange = "0xe";
  pairs = "ANY";
  address = "0x1";
  token_from_amount = "7";
  token_to_amount = "14";
}

abbrev first : Purchase
first = record {
  exr = bought;
  block_hash = "0xb";
  block_number = 100;
  coins = pos 7;
  tokens = pos 14;
}

-- Tokens for coins: the amounts change places.
abbrev second : Purchase
second = record {
  exr = record bought { log_type = "EthPurchase"; token_from_amount = "0"; token_to_amount = "7" };
  block_hash = "0xc";
  block_number = 101;
  coins = pos 7;
  tokens = pos 0;
}

readable : AreReadable lib "0xe" (first ∷ second ∷ [])
unfolding purchase_amounts
readable = (refl, refl, (refl, refl, tt))

update_day-HasVolumes_example :
    let key = get_key_of_exchange_and_timestamp lib "0xe" 86400 in
    (store' : Volumes) × (update_day lib 86400 (first ∷ second ∷ []) [] ≡ returns store')
    × HasVolumes lib key (coin_sum (first ∷ second ∷ [])) (token_sum (first ∷ second ∷ [])) store'
    × ((other : String) → str_eq key other ≡ false → find_id other store' ≡ find_id other [])
unfolding find_id
update_day-HasVolumes_example =
    update_day-HasVolumes lib 86400 "0xe" first (second ∷ []) [] readable (refl, refl, tt) refl
