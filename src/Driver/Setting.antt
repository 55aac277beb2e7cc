-- ===== src/Driver/Setting.antt =====
-- What a run of distributer/ reads: the configuration, the database, the node and the files; with
-- the samples of byliquidity.go that it takes of the chain.
use anytoken_distribution.Base.{ℕ, String, Option, List, Bool, if◌then◌else◌}
use anytoken_distribution.Int.{ℤ}
use anytoken_distribution.Config.Lookups.{is_configed_exchange}
use anytoken_distribution.Receipts.Records.{MgoAccount}
use anytoken_distribution.Distribute.Search.{find_block_by_timestamp}
use anytoken_distribution.Distribute.Cycle.{calc_random_sample}
use anytoken_distribution.Distribute.Options.{Addresses}
use anytoken_distribution.Distribute.Send.{Node}
use anytoken_distribution.Volumes.Rewards.{Source}
use anytoken_distribution.Driver.Run.{Run, ends, run_of, ended, ◌>>=◌}

-- The answers of the node; a balance is taken at a block, or at the latest one.
pub record Chain : Type 0 where
  -- the times of the blocks, and the latest blocks that are seen in the wait for a time
  pub time : ℕ → ℕ
  pub latest : (timestamp : ℕ) → List ℕ
  pub average : ℕ
  -- the generator that the hash of a block seeds
  pub random : (seed_block : ℕ) → ℕ → ℕ
  pub coin_balance : (exchange : ℕ) → Option ℕ → ℤ
  pub total_supply : (exchange : ℕ) → Option ℕ → ℤ
  pub liquidity_balance : (exchange account : ℕ) → Option ℕ → ℤ
  -- LoopGetLatestBlockHeader
  pub latest_number : ℕ
  -- for the checks: the sender's balance, and the latest block number or timestamp
  pub sender_balance : ℤ
  pub latest_height : ℕ

pub record Setting : Type 0 where
  pub src : Source
  pub chain : Chain
  -- the start and the cycle length of the measurement in use
  pub start : ℕ
  pub cycle_len : ℕ
  pub dust_threshold : ℤ
  -- the query of the database for accounts
  pub find_accounts : (MgoAccount → Bool) → List MgoAccount
  -- the lines of a file, and whether the output file of an exchange opens and takes its title
  pub file : String → Option (List String)
  pub opens : ℕ → Bool
  pub writes : ℕ → Bool
  -- the node at each account of each exchange, and the clock after each exchange
  pub nodes : (exchange account : ℕ) → Node
  pub clock : ℕ → ℕ
  -- the rounds that loops are given
  pub fuel : ℕ

abbrev pub addresses_of : Source → Addresses
addresses_of src = record {
  is_hex_address = src.ex.lib.is_hex_address;
  is_configed_exchange = is_configed_exchange src.ex.lib src.ex.exchanges;
}

unfoldable pub get_block_height_by_time : Setting → (timestamp : ℕ) → Run ℕ
get_block_height_by_time s timestamp = ended (
    find_block_by_timestamp s.chain.time timestamp s.fuel s.chain.average
      (s.chain.latest timestamp))

-- CalcRandomSample, whose seed is the block at the start.
unfoldable pub calc_seeded_sample : Setting → (start end : ℕ) → Run ℕ
unfolding get_block_height_by_time
calc_seeded_sample s start end = do
  seed ← (if s.src.use_time_measurement then get_block_height_by_time s start else ends start)
  run_of (calc_random_sample (s.chain.random seed) start end)

unfoldable pub calc_random_sample_height : Setting → (start end : ℕ) → Run ℕ
unfolding calc_seeded_sample get_block_height_by_time
calc_random_sample_height s start end = do
  sample ← calc_seeded_sample s start end
  (if s.src.use_time_measurement then get_block_height_by_time s sample else ends sample)
