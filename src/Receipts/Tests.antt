-- ===== src/Receipts/Tests.antt =====
-- parseReceipt at a purchase, and its theorems there.
use anytoken_distribution.Base.{
  ◌≡◌, ◌≤◌, refl, some, [], ◌∷◌, Ascending, true, false, not, ◌&&◌, ltb, ◌==◌,
}
use anytoken_distribution.Library.Sample.{sample}
use anytoken_distribution.Outcome.{returns, panics}
use anytoken_distribution.Config.Lookups.{
  get_exchange_pairs, get_exchange_token, is_configed_exchange, is_in_all_exchanges,
}
use anytoken_distribution.Receipts.Topics.{topic_of}
use anytoken_distribution.Receipts.Records.{Log, Receipt, Env, State}
use anytoken_distribution.Receipts.Record.{
  record_accounts, is_exchange_token, record_exchange_account, record_token_accounts,
  record_account_volumes, update_volumes,
}
use anytoken_distribution.Receipts.Parse.{
  record_buyer, keep_exchange_receipt, exchange_receipt, is_followed_exchange, add_exchange_receipt,
}
use anytoken_distribution.Receipts.Logs.{
  handle_log, parse_log, parse_log_topics, parse_logs, parse_receipt,
}
use anytoken_distribution.Receipts.Counts.{count}
use anytoken_distribution.Receipts.Saved.{parse_receipt-counts}
use anytoken_distribution.Receipts.Indices.{receipt_indices, histories, erc20_indices, v2_indices}
use anytoken_distribution.Receipts.RisingLogs.{parse_receipt-Ascending}
use anytoken_distribution.Receipts.Panics.{any_fatal, Ends, parse_receipt-Ends}

abbrev env : Env
env = record {
  lib = sample;
  exchanges =
      record {
        pairs = "ANY";
        exchange = "0x1";
        token = "0x2";
        creation_height = 5;
        trade_weight = 1;
      }
      ∷ [];
  routers = [];
  scan_all_exchange = false;
  record_token_account = true;
  update_volume_daily = true;
  only_sync_account = false;
}

abbrev purchase : Log
purchase = record {
  address = 1;
  topics = 0xcd60aa75dea3072fbc07ae6d7d856b5dc5f4eee88854f5b4abf7b680ef8bc50f ∷ 2 ∷ 10 ∷ 20 ∷ [];
  payload = [];
  removed = false;
}

-- The event of a factory, with two topics only.
abbrev creation : Log
creation = record purchase {
  topics = 0x9d42cb017eb05bd8944ab536a8b35bc68085931dd5f4356489801453923953f9 ∷ 2 ∷ [];
}

abbrev empty_log : Log
empty_log = record purchase { topics = [] }

abbrev start : State
start = record {
  mt = record {
    hash = "0xa";
    block_hash = "0xb";
    block_number = 100;
    timestamp = 90000;
    erc20_receipts = [];
    exchange_receipts = [];
    exchange_v2_receipts = [];
  };
  writes = [];
  all = record { all_tokens = []; all_exchanges = [] };
}

abbrev receipt : Receipt
receipt = record { status = 1; logs = empty_log ∷ purchase ∷ [] }

abbrev finish : State
finish =
    keep_exchange_receipt env
      (topic_of 0xcd60aa75dea3072fbc07ae6d7d856b5dc5f4eee88854f5b4abf7b680ef8bc50f)
      (record {
        log_type = "TokenPurchase";
        log_index = 1;
        exchange = "0x1";
        pairs = "ANY";
        address = "0x2";
        token_from_amount = "7";
        token_to_amount = "7";
      })
      "0x2" start

run_purchase : parse_receipt env (some receipt) start ≡ returns (true, finish)
unfolding parse_receipt parse_logs parse_log parse_log_topics handle_log topic_of
    add_exchange_receipt exchange_receipt is_followed_exchange is_configed_exchange
    get_exchange_pairs
run_purchase = refl

parse_receipt-counts_example :
    (count start ≤ count finish) × (true ≡ ltb (count start) (count finish))
parse_receipt-counts_example =
    parse_receipt-counts env (some receipt) start finish true run_purchase

parse_receipt-Ascending_example :
    Ascending 0 2 (receipt_indices finish)
    × Ascending 0 2 (histories finish)
    × Ascending 0 2 (erc20_indices finish)
    × Ascending 0 2 (v2_indices finish)
parse_receipt-Ascending_example =
    parse_receipt-Ascending env receipt start finish true
      (record { no_receipts = refl; no_erc20 = refl; no_v2 = refl; no_writes = refl }) run_purchase

purchase_indices : (receipt_indices finish ≡ 1 ∷ []) × (histories finish ≡ 1 ∷ [])
unfolding keep_exchange_receipt topic_of record_buyer record_token_accounts record_exchange_account
    is_exchange_token record_accounts record_account_volumes update_volumes is_configed_exchange
    get_exchange_pairs get_exchange_token is_in_all_exchanges
purchase_indices = (refl, refl)

abbrev two_topics : Receipt
two_topics = record { status = 1; logs = purchase ∷ creation ∷ [] }

creation_panics : parse_receipt env (some two_topics) start ≡ panics
unfolding topic_of
creation_panics = parse_receipt-Ends env two_topics start

parse_receipt-Ends_example :
    Ends
      (not (two_topics.status == 0) && any_fatal two_topics.logs)
      (parse_receipt env (some two_topics) start)
parse_receipt-Ends_example = parse_receipt-Ends env two_topics start
