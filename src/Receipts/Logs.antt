-- ===== src/Receipts/Logs.antt =====
-- syncer/parsereceipt.go and exchanges.go: addExchangeV2Receipt, addExchanges and parseReceipt.
use anytoken_distribution.Base.{
  ℕ, ◌+◌, ◌*◌, String, Option, none, some, List, [], ◌∷◌, length, get_elem?, take, drop, Bool, true,
  false, ◌||◌, not, ltb, ◌==◌, if◌then◌else◌,
}
use anytoken_distribution.Outcome.{Outcome, returns, deref, ◌>>=◌}
use anytoken_distribution.Config.Lookups.{AllPairs, is_configed_router, add_token_and_exchange}
use anytoken_distribution.Receipts.Topics.{
  Topic, topic_of, add_liquidity, remove_liquidity, token_purchase, eth_purchase, transfer,
  approval, create_exchange, mint, burn, swap, other,
}
use anytoken_distribution.Receipts.Records.{Log, Receipt, ExchangeV2Receipt, Env, State}
use anytoken_distribution.Receipts.Parse.{
  topic_address, log_address, append_v2, add_exchange_receipt, add_erc20_receipt,
}

-- The number in `data[32 * i : 32 * i + 32]`, as the code writes it.
abbrev pub word_amount : Env → ℕ → List ℕ → String
word_amount env i bytes = env.lib.int_string (env.lib.set_bytes (take 32 (drop (32 * i) bytes)))

-- The amounts that the switch on the topic sets; `none` where it returns false.
unfoldable pub with_amounts : Env → Topic → Log → ExchangeV2Receipt → Option ExchangeV2Receipt
with_amounts env mint rlog r =
    if not (length rlog.topics == 2) || not (length rlog.payload == 64)
    then none
    else some (record r {
      amount0_in = word_amount env 0 rlog.payload;
      amount1_in = word_amount env 1 rlog.payload;
    })
with_amounts env burn rlog r =
    if not (length rlog.topics == 3) || not (length rlog.payload == 64)
    then none
    else some (record r {
      amount0_out = word_amount env 0 rlog.payload;
      amount1_out = word_amount env 1 rlog.payload;
    })
with_amounts env swap rlog r =
    if not (length rlog.topics == 3) || not (length rlog.payload == 128)
    then none
    else some (record r {
      amount0_in = word_amount env 0 rlog.payload;
      amount1_in = word_amount env 1 rlog.payload;
      amount0_out = word_amount env 2 rlog.payload;
      amount1_out = word_amount env 3 rlog.payload;
    })
with_amounts env _ rlog r = none

-- `To`, of a log with three topics.
abbrev pub v2_to : Env → List ℕ → String
v2_to env (_ ∷ _ ∷ to ∷ []) = topic_address env to
v2_to env _ = ""

abbrev pub append_v2_if : Option ExchangeV2Receipt → State → Bool × State
append_v2_if none s = (false, s)
append_v2_if (some r) s = (true, append_v2 r s)

-- The receipt, of a log that the checks let pass; `topics` are those of the log.
unfoldable pub exchange_v2_receipt :
    Env → Topic → Log → ℕ → String → List ℕ → Option ExchangeV2Receipt
unfolding with_amounts
exchange_v2_receipt env topic rlog index log_type (first ∷ sender ∷ rest) =
    let r : ExchangeV2Receipt = record {
      log_type = log_type;
      log_index = index;
      exchange = log_address env rlog;
      sender = topic_address env sender;
      to = v2_to env (first ∷ sender ∷ rest);
      amount0_in = "";
      amount1_in = "";
      amount0_out = "";
      amount1_out = "";
    } in
    if ltb (length rlog.payload) 64 || not (is_configed_router env.lib env.routers r.sender)
    then none
    else with_amounts env topic rlog r
exchange_v2_receipt env topic rlog index log_type _ = none

unfoldable pub add_exchange_v2_receipt : Env → Topic → Log → ℕ → String → State → Bool × State
unfolding exchange_v2_receipt
add_exchange_v2_receipt env topic rlog index log_type s =
    append_v2_if (exchange_v2_receipt env topic rlog index log_type rlog.topics) s

-- addExchanges, of a log's topics; `topics[i]` panics out of range.
unfoldable pub add_exchanges : Env → (topics : List ℕ) → AllPairs → Outcome AllPairs
add_exchanges env topics all = if not (length topics == 2) then returns all else do
  token ← deref (get_elem? topics 1)
  exchange ← deref (get_elem? topics 2)
  returns (
      add_token_and_exchange (env.lib.bytes_to_address token) (env.lib.bytes_to_address exchange)
        all)

-- The switch, with `save` as the round before left it.
unfoldable pub handle_log : Env → Bool → Topic → Log → ℕ → State → Outcome (Bool × State)
unfolding add_exchange_receipt add_erc20_receipt add_exchange_v2_receipt add_exchanges
handle_log env save add_liquidity rlog i s =
    returns (add_exchange_receipt env add_liquidity rlog i "AddLiquidity" s)
handle_log env save remove_liquidity rlog i s =
    returns (add_exchange_receipt env remove_liquidity rlog i "RemoveLiquidity" s)
handle_log env save token_purchase rlog i s =
    returns (add_exchange_receipt env token_purchase rlog i "TokenPurchase" s)
handle_log env save eth_purchase rlog i s =
    returns (add_exchange_receipt env eth_purchase rlog i "EthPurchase" s)
handle_log env save transfer rlog i s = returns (add_erc20_receipt env transfer rlog i "Transfer" s)
handle_log env save approval rlog i s = returns (add_erc20_receipt env approval rlog i "Approval" s)
handle_log env save create_exchange rlog i s = do
  all ← add_exchanges env rlog.topics s.all
  returns (save, record s { all = all })
handle_log env save mint rlog i s = returns (add_exchange_v2_receipt env mint rlog i "Mint" s)
handle_log env save burn rlog i s = returns (add_exchange_v2_receipt env burn rlog i "Burn" s)
handle_log env save swap rlog i s = returns (add_exchange_v2_receipt env swap rlog i "Swap" s)
handle_log env save other rlog i s = returns (save, s)

-- One round of the loop: `save`, `savedb` and the state; `topics` are those of the log.
unfoldable pub parse_log_topics :
    Env → Log → List ℕ → ℕ → Bool × Bool × State → Outcome (Bool × Bool × State)
unfolding handle_log topic_of
parse_log_topics env rlog [] i r = returns r
parse_log_topics env rlog (topic ∷ _) i (save, savedb, s) =
    if rlog.removed then returns (save, savedb, s) else do
      (save', s') ← handle_log env save (topic_of topic) rlog i s
      returns (save', savedb || save', s')

unfoldable pub parse_log : Env → Log → ℕ → Bool × Bool × State → Outcome (Bool × Bool × State)
unfolding parse_log_topics
parse_log env rlog i r = parse_log_topics env rlog rlog.topics i r

unfoldable pub parse_logs : Env → List Log → ℕ → Bool × Bool × State → Outcome (Bool × Bool × State)
unfolding parse_log
parse_logs env [] i r = returns r
parse_logs env (rlog ∷ logs) i r = do r' ← parse_log env rlog i r; parse_logs env logs (i + 1) r'

-- parseReceipt; a nil receipt is `none`.
unfoldable pub parse_receipt : Env → Option Receipt → State → Outcome (Bool × State)
unfolding parse_logs
parse_receipt env none s = returns (false, s)
parse_receipt env (some receipt) s =
    if receipt.status == 0
    then returns (false, s)
    else do (_, savedb, s') ← parse_logs env receipt.logs 0 (false, false, s); returns (savedb, s')
