-- ===== src/Driver/Balances.antt =====
-- distributer/byliquidity.go, getLiquidityBalancesOfExchange: the shares of the accounts of an
-- exchange, from their balances of liquidity; with FindLiquidityBalance and AddLiquidityBalance of
-- mongodb/api.go, where the calls of the driver succeed.
use anytoken_distribution.Base.{
  ℕ, String, Option, none, some, List, [], ◌∷◌, Bool, false, ◌==◌, ◌+◌, not, if◌then◌else◌,
}
use anytoken_distribution.Int.{
  ℤ, pos, pos_part, neg_part, ◌-ℤ◌, ◌+ℤ◌, ◌*ℤ◌, ◌/ℤ◌, is_nonpositive, ltb_ℤ,
}
use anytoken_distribution.Library.{Library}
use anytoken_distribution.Config.Lookups.{get_exchange_pairs, is_excluded_reward_account}
use anytoken_distribution.Reward.Stats.{AccountStat}
use anytoken_distribution.Volumes.Find.{convert_to_sorted_slice}
use anytoken_distribution.Database.Store.{find_id}
use anytoken_distribution.Database.Insert.{add_once, key_of_three}
use anytoken_distribution.Driver.Setting.{Setting}

-- The record; its key is that of the collection.
pub record MgoLiquidityBalance : Type 0 where
  pub exchange : String
  pub pairs : String
  pub account : String
  pub block_number : ℕ
  pub liquidity : String

abbrev pub Stored : Type 0
Stored = List (String × MgoLiquidityBalance)

-- The block that balances are taken at, and the height that is noted.
abbrev pub noted_height : Setting → (archive_mode : Bool) → (sample_height : ℕ) → ℕ
noted_height s archive_mode sample_height =
    if archive_mode then sample_height else s.chain.latest_number

abbrev pub block_of : (archive_mode : Bool) → (height : ℕ) → Option ℕ
block_of archive_mode height = if archive_mode then some height else none

-- What is the same for all accounts of an exchange.
pub record Sampled : Type 0 where
  pub exchange : String
  pub height : ℕ
  pub block : Option ℕ
  pub total_supply : ℤ
  pub coins : ℤ

unfoldable pub sample_of : Setting → (archive_mode : Bool) → (sample_height : ℕ) → String → Sampled
sample_of s archive_mode sample_height exchange =
    let block = block_of archive_mode sample_height in
    let address = s.src.ex.lib.hex_to_address exchange in
    record {
      exchange = exchange;
      height = noted_height s archive_mode sample_height;
      block = block;
      total_supply = s.chain.total_supply address block;
      coins = s.chain.coin_balance address block;
    }

abbrev pub holder_text : Setting → ℕ → String
holder_text s account = s.src.ex.lib.to_lower (s.src.ex.lib.address_string account)

-- What the database has, if it is a number, and else what the node says.
abbrev pub stored_or : Library → ℤ → Option MgoLiquidityBalance → ℤ
stored_or lib asked none = asked
stored_or lib asked (some mliq) = elim (lib.set_string mliq.liquidity) [
  | none ↦ asked
  | some value ↦ value
]

unfoldable pub liquidity_value : Setting → Sampled → ℕ → Stored → ℤ
unfolding find_id key_of_three
liquidity_value s at account stored =
    let lib = s.src.ex.lib in
    stored_or lib (s.chain.liquidity_balance (lib.hex_to_address at.exchange) account at.block)
      (find_id (key_of_three lib at.exchange (holder_text s account) at.height) stored)

-- The coins behind a balance of liquidity.
unfoldable pub coin_share : (value coins total_supply : ℤ) → ℤ
coin_share value coins total_supply =
    if is_nonpositive total_supply then value *ℤ coins else value *ℤ coins /ℤ total_supply

abbrev pub balance_record : Setting → Sampled → ℕ → ℤ → MgoLiquidityBalance
balance_record s at account value =
    let lib = s.src.ex.lib in
    record {
      exchange = lib.to_lower at.exchange;
      pairs = get_exchange_pairs lib s.src.ex.exchanges at.exchange;
      account = holder_text s account;
      block_number = at.height;
      liquidity = lib.int_string value;
    }

abbrev pub is_above : Option ℤ → ℤ → Bool
is_above none value = false
is_above (some share) value = ltb_ℤ value share

-- The entry of the account in the map: its share is compared with the balance of liquidity.
unfoldable pub put_balance :
    (account height : ℕ) → (value coins : ℤ) → List AccountStat → List AccountStat
put_balance account height value coins [] =
    record { account = account; reward = none; share = some coins; number = height } ∷ []
put_balance account height value coins (stat ∷ stats) =
    let rest = put_balance account height value coins stats in
    if not (stat.account == account)
    then stat ∷ rest
    else if is_above stat.share value
    then record stat { share = some coins; number = height } ∷ stats
    else stat ∷ stats

-- The loop over the accounts: the map, the total of liquidity, and the stored balances.
pub record Balances : Type 0 where
  pub stats : List AccountStat
  pub total_liquid : ℤ
  pub stored : Stored

unfoldable pub add_account : Setting → Sampled → ℕ → Balances → Balances
unfolding liquidity_value coin_share put_balance add_once key_of_three
add_account s at account b =
    let value = liquidity_value s at account b.stored in
    let key = key_of_three s.src.ex.lib at.exchange (holder_text s account) at.height in
    let counted : Balances = record b {
      total_liquid = b.total_liquid +ℤ value;
      stored = (add_once false key (balance_record s at account value) b.stored).1;
    } in
    let coins = coin_share value at.coins at.total_supply in
    if is_excluded_reward_account s.src.ex.lib s.src.ex.exchanges s.src.ex.all account
    then counted
    else record counted { stats = put_balance account at.height value coins b.stats }

unfoldable pub add_accounts : Setting → Sampled → List ℕ → Balances → Balances
unfolding add_account
add_accounts s at [] b = b
add_accounts s at (account ∷ accounts) b = add_accounts s at accounts (add_account s at account b)

abbrev pub abs_ℤ : ℤ → ℤ
abs_ℤ n = pos (pos_part n + neg_part n)

-- Whether the balances make up the total supply, up to a twentieth.
unfoldable pub is_complete : (total_supply total_liquid : ℤ) → Bool
is_complete total_supply total_liquid =
    not (ltb_ℤ total_liquid (abs_ℤ (total_supply -ℤ total_liquid) *ℤ pos 20))

-- getLiquidityBalancesOfExchange, with the stored balances afterwards.
unfoldable pub get_liquidity_balances_of_exchange :
    Setting
    → (archive_mode : Bool) → (sample_height : ℕ) → String
    → List ℕ
    → Stored
    → List AccountStat × Bool × Stored
unfolding sample_of add_accounts is_complete
get_liquidity_balances_of_exchange s archive_mode sample_height exchange accounts stored =
    let at = sample_of s archive_mode sample_height exchange in
    let b =
      add_accounts s at accounts (record { stats = []; total_liquid = pos 0; stored = stored }) in
    (
      convert_to_sorted_slice s.src.db.sort b.stats,
      is_complete at.total_supply b.total_liquid,
      b.stored,
    )
