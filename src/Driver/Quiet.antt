-- ===== src/Driver/Quiet.antt =====
-- A setting for runs: a node and files that take everything, and an empty database.
use anytoken_distribution.Base.{none, [], false, true}
use anytoken_distribution.Int.{pos}
use anytoken_distribution.Library.Sample.{sample}
use anytoken_distribution.Driver.Setting.{Setting}

abbrev pub quiet : Setting
quiet = record {
  src = record {
    ex = record {
      lib = sample;
      exchanges = [];
      all = record { all_tokens = []; all_exchanges = [] };
    };
    db = record { find = λ query. []; sort = λ stats. stats };
    staking = none;
    use_time_measurement = false;
    archive_mode = false;
  };
  chain = record {
    time = λ n. n;
    latest = λ t. [];
    average = 13;
    random = λ seed max. 0;
    coin_balance = λ exchange block. pos 700;
    total_supply = λ exchange block. pos 70;
    liquidity_balance = λ exchange account block. pos 7;
    latest_number = 500;
    sender_balance = pos 0;
    latest_height = 500;
  };
  start = 0;
  cycle_len = 400;
  dust_threshold = pos 0;
  find_accounts = λ query. [];
  file = λ name. none;
  opens = λ i. true;
  writes = λ i. true;
  nodes = λ i j. record { pending = none; signs = true; accepts = true };
  clock = λ i. 0;
  fuel = 9;
}
