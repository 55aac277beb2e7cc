-- ===== src/Files/Import.antt =====
-- cmd/distribute/importrewards.go: the lines of a file of results, and what is added to the database
-- for them. A call of log.Fatalf ends the program with an error.
use text.Mathlib.Text.{◌==◌ as str_eq}
use anytoken_distribution.Base.{
  ℕ, String, Option, none, some, List, [], ◌∷◌, ◌++◌, Bool, true, false, not, ◌&&◌, if◌then◌else◌,
}
use anytoken_distribution.Int.{ℤ}
use anytoken_distribution.Library.{Library}
use anytoken_distribution.Config.Exchanges.{ExchangeConfig}
use anytoken_distribution.Config.Lookups.{get_exchange_pairs}
use anytoken_distribution.Files.Rows.{
  RewardResult, volume_result, liquid_result, share_text, hash_text, account_text,
}
use anytoken_distribution.Files.Lines.{
  FileError, few_parts, wrong_address, wrong_reward, wrong_share, wrong_number, wrong_hash,
  FileResult, failed, has_read, is_commented_line, uint64_of,
}

pub data RewardType : Type 0 where
  volume liquid : RewardType

-- The flags of the command.
pub record ImportFlags : Type 0 where
  pub reward_type : RewardType
  pub dry_run : Bool
  pub exchange : String
  pub reward_token : String
  pub start_height : ℕ
  pub end_height : ℕ

-- The texts of a line; one that the line does not have is empty.
pub record ImportParts : Type 0 where
  pub account_str : String
  pub reward_str : String
  pub share_str : String
  pub number_str : String
  pub tx_hash_str : String

unfoldable pub parts_of : List String → FileResult ImportParts
parts_of (account ∷ reward ∷ []) = has_read (record {
  account_str = account;
  reward_str = reward;
  share_str = "";
  number_str = "";
  tx_hash_str = "";
})
parts_of (account ∷ reward ∷ tx_hash ∷ []) = has_read (record {
  account_str = account;
  reward_str = reward;
  share_str = "";
  number_str = "";
  tx_hash_str = tx_hash;
})
parts_of (account ∷ reward ∷ share ∷ number ∷ []) = has_read (record {
  account_str = account;
  reward_str = reward;
  share_str = share;
  number_str = number;
  tx_hash_str = "";
})
parts_of (account ∷ reward ∷ share ∷ number ∷ tx_hash ∷ _) = has_read (record {
  account_str = account;
  reward_str = reward;
  share_str = share;
  number_str = number;
  tx_hash_str = tx_hash;
})
parts_of _ = failed few_parts

abbrev pub read_number : FileError → Option ℤ → FileResult (Option ℤ)
read_number e none = failed e
read_number e (some n) = has_read (some n)

-- An empty text is the nil number.
unfoldable pub optional_number : Library → FileError → String → FileResult (Option ℤ)
optional_number lib e text =
    if str_eq text "" then has_read none else read_number e (lib.set_decimal text)

unfoldable pub optional_hash : Library → String → FileResult (Option ℕ)
optional_hash lib text =
    let tx_hash = lib.hex_to_hash text in
    if str_eq text ""
    then has_read none
    else if not (str_eq (lib.hash_string tx_hash) text)
    then failed wrong_hash
    else has_read (some tx_hash)

infixl 5 ◌>>=◌
abbrev pub ◌>>=◌ : {A B : Type 0} → FileResult A → (A → FileResult B) → FileResult B
failed e >>= f = failed e
has_read a >>= f = f a

-- The number that is stored.
abbrev pub number_value : Option ℤ → ℕ
number_value none = 0
number_value (some n) = uint64_of n

-- The record of the type that is imported.
unfoldable pub result_of :
    Library
    → List ExchangeConfig
    → RewardType
    → ImportFlags
    → (now account : ℕ) → (reward : ℤ) → (share number : Option ℤ) → (tx_hash : Option ℕ)
    → RewardResult
result_of lib exchanges volume flags now account reward share number tx_hash =
    volume_result (record {
      exchange = flags.exchange;
      pairs = get_exchange_pairs lib exchanges flags.exchange;
      start = flags.start_height;
      end = flags.end_height;
      reward_token = flags.reward_token;
      account = account_text lib account;
      reward = lib.int_string reward;
      volume = share_text lib share;
      tx_count = number_value number;
      reward_tx = hash_text lib tx_hash;
      timestamp = now;
    })
result_of lib exchanges liquid flags now account reward share number tx_hash =
    liquid_result (record {
      exchange = flags.exchange;
      pairs = get_exchange_pairs lib exchanges flags.exchange;
      start = flags.start_height;
      end = flags.end_height;
      reward_token = flags.reward_token;
      account = account_text lib account;
      reward = lib.int_string reward;
      liquidity = share_text lib share;
      height = number_value number;
      reward_tx = hash_text lib tx_hash;
      timestamp = now;
    })

-- addRewardResultToDB, at the time `now`.
unfoldable pub add_reward_result_to_db :
    Library
    → List ExchangeConfig
    → ImportFlags
    → (now account : ℕ) → (reward : ℤ) → (share number : Option ℤ) → (tx_hash : Option ℕ)
    → List RewardResult
unfolding result_of
add_reward_result_to_db lib exchanges flags now account reward share number tx_hash =
    if flags.dry_run
    then []
    else result_of lib exchanges flags.reward_type flags now account reward share number tx_hash
      ∷ []

abbrev pub read_reward : Option ℤ → FileResult ℤ
read_reward none = failed wrong_reward
read_reward (some n) = has_read n

-- The body of processLine once the line is split and has an address.
unfoldable pub process_parts :
    Library
    → List ExchangeConfig
    → ImportFlags
    → (now : ℕ) → Bool
    → ImportParts
    → FileResult (List RewardResult)
unfolding optional_number optional_hash add_reward_result_to_db
process_parts lib exchanges flags now add_to_db parts =
    if not (lib.is_hex_address parts.account_str) then failed wrong_address else do
      reward ← read_reward (lib.set_decimal parts.reward_str)
      share ← optional_number lib wrong_share parts.share_str
      number ← optional_number lib wrong_number parts.number_str
      tx_hash ← optional_hash lib parts.tx_hash_str
      has_read (
          if add_to_db
          then add_reward_result_to_db lib exchanges flags now
              (lib.hex_to_address parts.account_str) reward share number tx_hash
          else [])

-- processLine: what it adds to the database.
unfoldable pub process_line :
    Library
    → List ExchangeConfig
    → ImportFlags
    → (now : ℕ) → String
    → Bool
    → FileResult (List RewardResult)
unfolding parts_of process_parts
process_line lib exchanges flags now line add_to_db = do
  parts ← parts_of (lib.split line)
  process_parts lib exchanges flags now add_to_db parts

-- The lines that readOneLine returns up to the first end of the file.
unfoldable pub content_lines : Library → List String → List String
content_lines lib [] = []
content_lines lib (raw ∷ lines) =
    let line = lib.trim_space raw in
    let rest = content_lines lib lines in
    if not (str_eq line "") && not (is_commented_line line) then line ∷ rest else rest

-- What is added, and the error that ends the program, if one does.
abbrev pub ImportRun : Type 0
ImportRun = List RewardResult × Option FileError

abbrev pub add_results : FileResult (List RewardResult) → ImportRun → ImportRun
add_results (failed e) later = ([], some e)
add_results (has_read results) (added, e) = (results ++ added, e)

-- One of the loops over the lines.
unfoldable pub process_lines :
    Library → List ExchangeConfig → ImportFlags → (now : ℕ) → Bool → List String → ImportRun
unfolding process_line
process_lines lib exchanges flags now add_to_db [] = ([], none)
process_lines lib exchanges flags now add_to_db (line ∷ lines) =
    add_results (process_line lib exchanges flags now line add_to_db)
      (process_lines lib exchanges flags now add_to_db lines)

abbrev pub go_on : ImportRun → ImportRun → ImportRun
go_on (results, some e) later = (results, some e)
go_on (results, none) (added, e) = (results ++ added, e)

-- processFile: every line is verified before the first is added.
unfoldable pub process_file :
    Library → List ExchangeConfig → ImportFlags → (now : ℕ) → List String → ImportRun
unfolding process_lines content_lines
process_file lib exchanges flags now lines =
    go_on (process_lines lib exchanges flags now false (content_lines lib lines))
      (process_lines lib exchanges flags now true (content_lines lib lines))
