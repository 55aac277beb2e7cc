-- ===== src/Database/Results.antt =====
-- mongodb/api.go: AddVolumeRewardResult and AddLiquidRewardResult with the items that they update.
use text.Mathlib.Text.{◌==◌ as str_eq}
use anytoken_distribution.Base.{ℕ, String, List, ◌==◌, if◌then◌else◌}
use anytoken_distribution.Files.Rows.{MgoVolumeRewardResult, MgoLiquidRewardResult}
use anytoken_distribution.Database.Store.{find_id, update_id, put_result}

-- A text or number that is set, or else the old one.
abbrev pub set_text : String → String → String
set_text new old = if str_eq new "" then old else new

abbrev pub set_number : ℕ → ℕ → ℕ
set_number new old = if new == 0 then old else new

-- getVolumeRewardUpdateItems, set in the record that is there.
unfoldable pub update_volume_reward :
    MgoVolumeRewardResult → MgoVolumeRewardResult → MgoVolumeRewardResult
update_volume_reward mr old = record old {
  reward = set_text mr.reward old.reward;
  volume = set_text mr.volume old.volume;
  tx_count = set_number mr.tx_count old.tx_count;
  reward_tx = set_text mr.reward_tx old.reward_tx;
}

unfoldable pub update_liquid_reward :
    MgoLiquidRewardResult → MgoLiquidRewardResult → MgoLiquidRewardResult
update_liquid_reward mr old = record old {
  reward = set_text mr.reward old.reward;
  liquidity = set_text mr.liquidity old.liquidity;
  height = set_number mr.height old.height;
  reward_tx = set_text mr.reward_tx old.reward_tx;
}

-- With the key of the record.
unfoldable pub add_volume_reward_result :
    String
    → MgoVolumeRewardResult
    → List (String × MgoVolumeRewardResult)
    → List (String × MgoVolumeRewardResult)
unfolding find_id update_id update_volume_reward
add_volume_reward_result key mr store =
    put_result (find_id key store) key mr (update_volume_reward mr) store

unfoldable pub add_liquid_reward_result :
    String
    → MgoLiquidRewardResult
    → List (String × MgoLiquidRewardResult)
    → List (String × MgoLiquidRewardResult)
unfolding find_id update_id update_liquid_reward
add_liquid_reward_result key mr store =
    put_result (find_id key store) key mr (update_liquid_reward mr) store
