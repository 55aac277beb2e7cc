-- ===== src/Files/Rows.antt =====
-- distributer/option.go: WriteSendRewardResult and WriteRewardResultToDB, with the records of
-- mongodb/tables.go that they store.
use Prim.Native.String.{◌++◌ as ◌+++◌}
use anytoken_distribution.Base.{
  ℕ, String, Option, none, some, List, [], ◌∷◌, not, ◌||◌, if◌then◌else◌,
}
use anytoken_distribution.Int.{ℤ}
use anytoken_distribution.Library.{Library}
use anytoken_distribution.Config.Exchanges.{ExchangeConfig}
use anytoken_distribution.Config.Lookups.{get_exchange_pairs}
use anytoken_distribution.Reward.Stats.{AccountStat}
use anytoken_distribution.Distribute.Options.{
  unset, by_liquid, by_volume, custom, is_custom, DistOption,
}

-- strings.Join(_, ",")
abbrev pub join : List String → String
join [] = ""
join (x ∷ []) = x
join (x ∷ y ∷ xs) = let rest = join (y ∷ xs) in x +++ "," +++ rest

-- The texts of a result: a nil reward prints as "<nil>", a nil share or hash is empty.
abbrev pub reward_text : Library → Option ℤ → String
reward_text lib none = "<nil>"
reward_text lib (some reward) = lib.int_string reward

abbrev pub share_text : Library → Option ℤ → String
share_text lib none = ""
share_text lib (some share) = lib.int_string share

abbrev pub hash_text : Library → Option ℕ → String
hash_text lib none = ""
hash_text lib (some tx_hash) = lib.hash_string tx_hash

abbrev pub account_text : Library → ℕ → String
account_text lib account = lib.to_lower (lib.address_string account)

-- The contents of the output line, by what is nil.
abbrev pub row_of : Library → (account reward number : String) → Option ℤ → Option ℕ → List String
row_of lib account reward number none none = account ∷ reward ∷ []
row_of lib account reward number (some share) none =
    account ∷ reward ∷ lib.int_string share ∷ number ∷ []
row_of lib account reward number none (some h) = account ∷ reward ∷ lib.hash_string h ∷ []
row_of lib account reward number (some share) (some h) =
    account ∷ reward ∷ lib.int_string share ∷ number ∷ lib.hash_string h ∷ []

unfoldable pub output_row : Library → AccountStat → Option ℕ → List String
output_row lib stat tx_hash =
    row_of lib (account_text lib stat.account) (reward_text lib stat.reward)
      (lib.format_uint stat.number) stat.share tx_hash

-- The key is a function of the other fields.
pub record MgoVolumeRewardResult : Type 0 where
  pub exchange : String
  pub pairs : String
  pub start : ℕ
  pub end : ℕ
  pub reward_token : String
  pub account : String
  pub reward : String
  pub volume : String
  pub tx_count : ℕ
  pub reward_tx : String
  pub timestamp : ℕ

pub record MgoLiquidRewardResult : Type 0 where
  pub exchange : String
  pub pairs : String
  pub start : ℕ
  pub end : ℕ
  pub reward_token : String
  pub account : String
  pub reward : String
  pub liquidity : String
  pub height : ℕ
  pub reward_tx : String
  pub timestamp : ℕ

-- What is added to the database.
pub data RewardResult : Type 0 where
  volume_result : MgoVolumeRewardResult → RewardResult
  liquid_result : MgoLiquidRewardResult → RewardResult

-- WriteRewardResultToDB, at the time `now`.
unfoldable pub write_reward_result_to_db :
    Library
    → List ExchangeConfig
    → DistOption
    → (now : ℕ) → (exchange account reward share : String) → (number : ℕ) → (tx_hash : String)
    → List RewardResult
unfolding get_exchange_pairs
write_reward_result_to_db lib exchanges opt now exchange account reward share number tx_hash =
    let name = lib.to_lower exchange in
    let volume : MgoVolumeRewardResult = record {
      exchange = name;
      pairs = get_exchange_pairs lib exchanges name;
      start = opt.start_height;
      end = opt.end_height;
      reward_token = opt.reward_token;
      account = account;
      reward = reward;
      volume = share;
      tx_count = number;
      reward_tx = tx_hash;
      timestamp = now;
    } in
    let liquid : MgoLiquidRewardResult = record {
      exchange = name;
      pairs = get_exchange_pairs lib exchanges name;
      start = opt.start_height;
      end = opt.end_height;
      reward_token = opt.reward_token;
      account = account;
      reward = reward;
      liquidity = share;
      height = number;
      reward_tx = tx_hash;
      timestamp = now;
    } in
    if not opt.save_db || is_custom opt.by_what then [] else elim opt.by_what [
      | by_volume ↦ volume_result volume ∷ []
      | by_liquid ↦ liquid_result liquid ∷ []
      | custom ↦ []
      | unset ↦ []
    ]

-- WriteSendRewardResult: the line that it writes, and what it adds to the database.
unfoldable pub write_send_reward_result :
    Library
    → List ExchangeConfig
    → DistOption
    → (now : ℕ) → String
    → AccountStat
    → Option ℕ
    → String × List RewardResult
unfolding output_row write_reward_result_to_db
write_send_reward_result lib exchanges opt now exchange stat tx_hash = (
  join (output_row lib stat tx_hash),
  write_reward_result_to_db lib exchanges opt now exchange (account_text lib stat.account)
      (reward_text lib stat.reward) (share_text lib stat.share) stat.number (hash_text lib tx_hash),
)
