-- ===== src/Receipts/Parse.antt =====
-- syncer/parsereceipt.go and exchanges.go: the handlers of logs, and parseReceipt.
use anytoken_distribution.Base.{
  ℕ, String, Option, none, some, List, [], ◌∷◌, ◌++◌, Bool, true, false, ◌&&◌, ◌||◌, not,
  if◌then◌else◌,
}
use anytoken_distribution.Int.{pos}
use anytoken_distribution.Config.Lookups.{
  get_exchange_pairs, get_exchange_token, is_configed_exchange, is_configed_token,
  is_in_all_token_and_exchanges,
}
use anytoken_distribution.Receipts.Topics.{Topic, token_purchase, transfer}
use anytoken_distribution.Receipts.Records.{
  Log, Erc20Receipt, ExchangeReceipt, ExchangeV2Receipt, Env, State,
}
use anytoken_distribution.Receipts.Record.{
  record_accounts, record_token_accounts, record_account_volumes, update_volumes,
}

-- An amount or address in a topic, as the code writes it.
abbrev pub topic_amount : Env → ℕ → String
topic_amount env topic = env.lib.int_string (pos topic)

abbrev pub topic_address : Env → ℕ → String
topic_address env topic = env.lib.to_lower (env.lib.address_string (env.lib.bytes_to_address topic))

abbrev pub log_address : Env → Log → String
log_address env rlog = env.lib.to_lower (env.lib.address_string rlog.address)

abbrev pub append_exchange : ExchangeReceipt → State → State
append_exchange ex s = record s {
  mt = record s.mt { exchange_receipts = s.mt.exchange_receipts ++ ex ∷ [] };
}

abbrev pub append_erc20 : Erc20Receipt → State → State
append_erc20 r s = record s { mt = record s.mt { erc20_receipts = s.mt.erc20_receipts ++ r ∷ [] } }

abbrev pub append_v2 : ExchangeV2Receipt → State → State
append_v2 r s = record s {
  mt = record s.mt { exchange_v2_receipts = s.mt.exchange_v2_receipts ++ r ∷ [] };
}

-- The buyer of tokens is an account of the token.
unfoldable pub record_buyer : Env → Topic → ExchangeReceipt → State → State
unfolding record_token_accounts
record_buyer env token_purchase ex s =
    record_token_accounts env (get_exchange_token env.lib env.exchanges ex.exchange) ex.address s
record_buyer env _ ex s = s

-- What addExchangeReceipt does with a receipt once it is made.
unfoldable pub keep_exchange_receipt : Env → Topic → ExchangeReceipt → String → State → State
unfolding record_buyer record_accounts record_account_volumes update_volumes
keep_exchange_receipt env topic ex account s =
    let s1 = append_exchange ex (record_buyer env topic ex s) in
    let s2 = record_accounts env ex.exchange ex.pairs account s1 in
    update_volumes env ex topic (record_account_volumes env ex topic s2)

-- The receipt that the topics spell and its account, of a log with four topics at least.
unfoldable pub exchange_receipt :
    Env → Log → ℕ → String → List ℕ → Option (ExchangeReceipt × String)
exchange_receipt env rlog index log_type (_ ∷ account ∷ from ∷ to ∷ _) =
    let exchange = log_address env rlog in
    some (
      record {
        log_type = log_type;
        log_index = index;
        exchange = exchange;
        pairs = get_exchange_pairs env.lib env.exchanges exchange;
        address = topic_address env account;
        token_from_amount = topic_amount env from;
        token_to_amount = topic_amount env to;
      },
      env.lib.address_string (env.lib.bytes_to_address account),
    )
exchange_receipt env rlog index log_type _ = none

abbrev pub keep_if : Env → Topic → Option (ExchangeReceipt × String) → State → Bool × State
keep_if env topic none s = (false, s)
keep_if env topic (some (ex, account)) s = (true, keep_exchange_receipt env topic ex account s)

unfoldable pub is_followed_exchange : Env → String → Bool
is_followed_exchange env exchange =
    env.scan_all_exchange || is_configed_exchange env.lib env.exchanges exchange

unfoldable pub add_exchange_receipt : Env → Topic → Log → ℕ → String → State → Bool × State
unfolding keep_exchange_receipt exchange_receipt is_followed_exchange
add_exchange_receipt env topic rlog index log_type s =
    if not (is_followed_exchange env (log_address env rlog))
    then (false, s)
    else keep_if env topic (exchange_receipt env rlog index log_type rlog.topics) s

unfoldable pub is_followed_token : Env → String → State → Bool
is_followed_token env erc20 s =
    (is_configed_token env.lib env.exchanges erc20
      || is_configed_exchange env.lib env.exchanges erc20)
    || (env.scan_all_exchange && is_in_all_token_and_exchanges s.all (env.lib.hex_to_address erc20))

-- The receipt of a log with three topics at least.
unfoldable pub erc20_receipt : Env → Log → ℕ → String → List ℕ → Option Erc20Receipt
erc20_receipt env rlog index log_type (_ ∷ from ∷ to ∷ _) = some (record {
  log_type = log_type;
  log_index = index;
  erc20 = log_address env rlog;
  from = topic_address env from;
  to = topic_address env to;
  value = env.lib.int_string (env.lib.set_bytes rlog.payload);
})
erc20_receipt env rlog index log_type _ = none

unfoldable pub record_receiver : Env → Topic → Erc20Receipt → State → State
unfolding record_token_accounts
record_receiver env transfer r s = record_token_accounts env r.erc20 r.to s
record_receiver env _ r s = s

abbrev pub keep_erc20_if : Env → Topic → Option Erc20Receipt → State → Bool × State
keep_erc20_if env topic none s = (false, s)
keep_erc20_if env topic (some r) s = (true, record_receiver env topic r (append_erc20 r s))

unfoldable pub add_erc20_receipt : Env → Topic → Log → ℕ → String → State → Bool × State
unfolding is_followed_token erc20_receipt record_receiver
add_erc20_receipt env topic rlog index log_type s =
    if not (is_followed_token env (log_address env rlog) s)
    then (false, s)
    else keep_erc20_if env topic (erc20_receipt env rlog index log_type rlog.topics) s
