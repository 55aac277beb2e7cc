-- ===== src/Database/Tests.antt =====
-- A result that is added to one with a reward only, and retries.
use anytoken_distribution.Base.{
  ◌==◌, if◌then◌else◌, true, false, refl, ℕ, String, ◌≡◌, some, List, [], ◌∷◌,
}
use anytoken_distribution.Files.Rows.{MgoVolumeRewardResult, MgoLiquidRewardResult}
use anytoken_distribution.Database.Store.{
  DbResult, duplicate, broken, try_from, try_do_times, find_id, update_id,
}
use anytoken_distribution.Database.Results.{update_volume_reward, add_volume_reward_result}
use anytoken_distribution.Database.Added.{IsAdded, add_volume_reward_result-IsAdded}

abbrev unsent : MgoVolumeRewardResult
unsent = record {
  exchange = "0xe";
  pairs = "ANY";
  start = 0;
  end = 6600;
  reward_token = "0xd";
  account = "0x1";
  reward = "7";
  volume = "7";
  tx_count = 7;
  reward_tx = "";
  timestamp = 9;
}

abbrev sent : MgoVolumeRewardResult
sent = record unsent { volume = ""; tx_count = 0; reward_tx = "0xh"; timestamp = 10 }

abbrev store : List (String × MgoVolumeRewardResult)
store = ("0xe:0x1:0", unsent) ∷ []

find-sent :
    find_id "0xe:0x1:0" (add_volume_reward_result "0xe:0x1:0" sent store)
    ≡ some (record unsent { reward_tx = "0xh" })
unfolding find_id add_volume_reward_result update_volume_reward update_id
find-sent = refl

add_volume_reward_result-IsAdded_example :
    IsAdded "0xe:0x1:0" sent store (add_volume_reward_result "0xe:0x1:0" sent store)
add_volume_reward_result-IsAdded_example = add_volume_reward_result-IsAdded "0xe:0x1:0" sent store

abbrev liquid : MgoLiquidRewardResult
liquid = record {
  exchange = "0xe";
  pairs = "ANY";
  start = 0;
  end = 6600;
  reward_token = "0xd";
  account = "0x1";
  reward = "7";
  liquidity = "7";
  height = 7;
  reward_tx = "";
  timestamp = 9;
}

abbrev second_done : ℕ → DbResult
second_done n = if n == 1 then duplicate else broken

try-second : (try_do_times second_done ≡ (true, 2)) × (try_do_times (λ n. broken) ≡ (false, 3))
unfolding try_do_times try_from
try-second = (refl, refl)
