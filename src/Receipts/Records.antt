-- ===== src/Receipts/Records.antt =====
-- mongodb/tables.go: the records that the parser of receipts makes, and the state that it changes.
use anytoken_distribution.Base.{ℕ, String, List, [], ◌∷◌, ◌++◌, Bool}
use anytoken_distribution.Library.{Library}
use anytoken_distribution.Config.Exchanges.{ExchangeConfig}
use anytoken_distribution.Config.Lookups.{AllPairs}

-- types.Log and types.Receipt of the SDK, in the fields that are read.
pub record Log : Type 0 where
  pub address : ℕ
  pub topics : List ℕ
  pub payload : List ℕ
  pub removed : Bool

pub record Receipt : Type 0 where
  pub status : ℕ
  pub logs : List Log

pub record Erc20Receipt : Type 0 where
  pub log_type : String
  pub log_index : ℕ
  pub erc20 : String
  pub from : String
  pub to : String
  pub value : String

pub record ExchangeReceipt : Type 0 where
  pub log_type : String
  pub log_index : ℕ
  pub exchange : String
  pub pairs : String
  pub address : String
  pub token_from_amount : String
  pub token_to_amount : String

pub record ExchangeV2Receipt : Type 0 where
  pub log_type : String
  pub log_index : ℕ
  pub exchange : String
  pub sender : String
  pub to : String
  pub amount0_in : String
  pub amount1_in : String
  pub amount0_out : String
  pub amount1_out : String

-- The fields of MgoTransaction that the parser reads or writes.
pub record MgoTransaction : Type 0 where
  pub hash : String
  pub block_hash : String
  pub block_number : ℕ
  pub timestamp : ℕ
  pub erc20_receipts : List Erc20Receipt
  pub exchange_receipts : List ExchangeReceipt
  pub exchange_v2_receipts : List ExchangeV2Receipt

-- The keys of the records are functions of the other fields.
pub record MgoAccount : Type 0 where
  pub exchange : String
  pub pairs : String
  pub account : String

pub record MgoTokenAccount : Type 0 where
  pub token : String
  pub account : String

pub record MgoVolumeHistory : Type 0 where
  pub exchange : String
  pub pairs : String
  pub account : String
  pub coin_amount : String
  pub token_amount : String
  pub block_number : ℕ
  pub timestamp : ℕ
  pub tx_hash : String
  pub log_type : String
  pub log_index : ℕ

-- The calls of the database.
pub data Write : Type 0 where
  add_account : MgoAccount → Write
  add_token_account : MgoTokenAccount → Write
  add_volume_history : MgoVolumeHistory → Write
  update_volume : ExchangeReceipt → (block_hash : String) → (block_number timestamp : ℕ) → Write

-- The configuration that the parser goes by.
pub record Env : Type 0 where
  pub lib : Library
  pub exchanges : List ExchangeConfig
  pub routers : List String
  pub scan_all_exchange : Bool
  pub record_token_account : Bool
  pub update_volume_daily : Bool
  pub only_sync_account : Bool

-- The transaction, the calls of the database in their order, and the exchanges of the factories.
pub record State : Type 0 where
  pub mt : MgoTransaction
  pub writes : List Write
  pub all : AllPairs

abbrev pub write : Write → State → State
write w s = record s { writes = s.writes ++ w ∷ [] }
