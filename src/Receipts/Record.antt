-- ===== src/Receipts/Record.antt =====
-- syncer/parsereceipt.go: recordAccounts, recordTokenAccounts, recordAccountVoumes and updateVolumes.
use anytoken_distribution.Base.{String, Bool, ◌&&◌, ◌||◌, not, if◌then◌else◌}
use anytoken_distribution.Worker.Daily.{get_day_begin}
use anytoken_distribution.Config.Lookups.{
  get_exchange_pairs, is_configed_exchange, is_in_all_exchanges,
}
use anytoken_distribution.Receipts.Topics.{Topic, token_purchase, eth_purchase, is_purchase}
use anytoken_distribution.Receipts.Records.{
  ExchangeReceipt, MgoTransaction, MgoAccount, MgoTokenAccount, MgoVolumeHistory, add_account,
  add_token_account, add_volume_history, update_volume, Env, State, write,
}

unfoldable pub record_accounts : Env → (exchange pairs account : String) → State → State
record_accounts env exchange pairs account =
    let ma : MgoAccount = record {
      exchange = env.lib.to_lower exchange;
      pairs = pairs;
      account = env.lib.to_lower account;
    } in
    write (add_account ma)

-- The exchange that a token's name stands for, if it is one.
unfoldable pub is_exchange_token : Env → String → State → Bool
is_exchange_token env token s =
    is_configed_exchange env.lib env.exchanges token
    || (env.scan_all_exchange && is_in_all_exchanges s.all (env.lib.hex_to_address token))

unfoldable pub record_exchange_account : Env → (token account : String) → State → State
unfolding record_accounts is_exchange_token
record_exchange_account env token account s =
    if is_exchange_token env token s
    then record_accounts env token (get_exchange_pairs env.lib env.exchanges token) account s
    else s

unfoldable pub record_token_accounts : Env → (token account : String) → State → State
unfolding record_exchange_account
record_token_accounts env token account s =
    let ma : MgoTokenAccount = record {
      token = env.lib.to_lower token;
      account = env.lib.to_lower account;
    } in
    let s' = record_exchange_account env token account s in
    if not env.record_token_account then s' else write (add_token_account ma) s'

abbrev pub coin_amount : Topic → ExchangeReceipt → String
coin_amount token_purchase ex = ex.token_from_amount
coin_amount eth_purchase ex = ex.token_to_amount
coin_amount _ ex = ""

abbrev pub token_amount : Topic → ExchangeReceipt → String
token_amount token_purchase ex = ex.token_to_amount
token_amount eth_purchase ex = ex.token_from_amount
token_amount _ ex = ""

abbrev pub volume_history : MgoTransaction → Topic → ExchangeReceipt → MgoVolumeHistory
volume_history mt topic ex = record {
  exchange = ex.exchange;
  pairs = ex.pairs;
  account = ex.address;
  coin_amount = coin_amount topic ex;
  token_amount = token_amount topic ex;
  block_number = mt.block_number;
  timestamp = mt.timestamp;
  tx_hash = mt.hash;
  log_type = ex.log_type;
  log_index = ex.log_index;
}

unfoldable pub record_account_volumes : Env → ExchangeReceipt → Topic → State → State
record_account_volumes env ex topic s =
    if env.only_sync_account
    then s
    else if not (is_purchase topic)
    then s
    else if is_in_all_exchanges s.all (env.lib.hex_to_address ex.address)
    then s
    else write (add_volume_history (volume_history s.mt topic ex)) s

unfoldable pub update_volumes : Env → ExchangeReceipt → Topic → State → State
update_volumes env ex topic s =
    if env.only_sync_account
    then s
    else if not env.update_volume_daily
    then s
    else if not (is_purchase topic)
    then s
    else write (update_volume ex s.mt.block_hash s.mt.block_number (get_day_begin s.mt.timestamp)) s
