-- ===== src/Files/Texts.antt =====
-- The texts of a written result, as an import reads them, and the record that it adds for them.
use text.Mathlib.Text.{◌==◌ as str_eq}
use text.Mathlib.TextPositions.{eq_refl}
use anytoken_distribution.Base.{
  ℕ, ◌<◌, String, ◌≡◌, sym, refl, Option, none, some, List, [], ◌∷◌, true, false, arith, word,
}
use anytoken_distribution.Int.{ℤ, pos}
use anytoken_distribution.Library.{Library}
use anytoken_distribution.Config.Exchanges.{ExchangeConfig}
use anytoken_distribution.Reward.Stats.{AccountStat}
use anytoken_distribution.Distribute.Options.{ByWhat, by_volume, by_liquid, DistOption}
use anytoken_distribution.Files.Rows.{
  join, output_row, account_text, reward_text, share_text, hash_text, write_reward_result_to_db,
}
use anytoken_distribution.Files.Lines.{FileError, has_read, uint64_of, wrong_number, wrong_share}
use anytoken_distribution.Files.Import.{
  RewardType, volume, liquid, ImportFlags, number_value, optional_number, optional_hash, result_of,
  add_reward_result_to_db, process_parts,
}

-- That the libraries read a row as it was written.
pub record ComesBack (lib : Library) (stat : AccountStat) (tx_hash : Option ℕ) : Type 0 where
  pub split_row : lib.split (join (output_row lib stat tx_hash)) ≡ output_row lib stat tx_hash
  pub is_address : lib.is_hex_address (account_text lib stat.account) ≡ true
  pub same_address : lib.hex_to_address (account_text lib stat.account) ≡ stat.account
  pub same_reward : (n : ℤ) → stat.reward ≡ some n → lib.set_decimal (lib.int_string n) ≡ some n
  pub same_share : (n : ℤ) → stat.share ≡ some n → lib.set_decimal (lib.int_string n) ≡ some n
  pub some_share : (n : ℤ) → stat.share ≡ some n → str_eq (lib.int_string n) "" ≡ false
  pub same_number : lib.set_decimal (lib.format_uint stat.number) ≡ some (pos stat.number)
  pub some_number : str_eq (lib.format_uint stat.number) "" ≡ false
  pub same_hash : (h : ℕ) → tx_hash ≡ some h → lib.hex_to_hash (lib.hash_string h) ≡ h
  pub some_hash : (h : ℕ) → tx_hash ≡ some h → str_eq (lib.hash_string h) "" ≡ false

-- A number is stored with a share only.
abbrev pub IsNumbered : AccountStat → Option ℤ → Type 0
IsNumbered stat none = stat.number ≡ 0
IsNumbered stat (some share) = stat.number < word

-- The flags of an import for the options of the distribution.
abbrev pub kind_of : RewardType → ByWhat
kind_of volume = by_volume
kind_of liquid = by_liquid

pub record Matches (lib : Library) (opt : DistOption) (exchange : String) (flags : ImportFlags)
    : Type 0 where
  pub saved : opt.save_db ≡ true
  pub wet : flags.dry_run ≡ false
  pub same_kind : opt.by_what ≡ kind_of flags.reward_type
  pub same_exchange : flags.exchange ≡ lib.to_lower exchange
  pub same_token : flags.reward_token ≡ opt.reward_token
  pub same_start : flags.start_height ≡ opt.start_height
  pub same_end : flags.end_height ≡ opt.end_height

pub uint64_of_small : (n : ℕ) → n < word → uint64_of (pos n) ≡ n
uint64_of_small n h = omega arith

-- What an import adds for the values of a result, whatever their texts are.
pub result_of-written :
    (lib : Library) (exchanges : List ExchangeConfig) (opt : DistOption) (exchange : String)
    (flags : ImportFlags) (kind : RewardType) (now account : ℕ) (reward : ℤ)
    (share number : Option ℤ) (tx_hash : Option ℕ)
    → Matches lib opt exchange flags
    → opt.by_what ≡ kind_of kind
    → write_reward_result_to_db lib exchanges opt now exchange
        (account_text lib account)
        (lib.int_string reward)
        (share_text lib share)
        (number_value number)
        (hash_text lib tx_hash)
      ≡ result_of lib exchanges kind flags now account reward share number tx_hash ∷ []
unfolding write_reward_result_to_db result_of
result_of-written lib exchanges opt exchange flags volume now account reward share number tx_hash
      same k =
    rw (same.saved, k, same.same_exchange, same.same_token, same.same_start, same.same_end) refl
result_of-written lib exchanges opt exchange flags liquid now account reward share number tx_hash
      same k =
    rw (same.saved, k, same.same_exchange, same.same_token, same.same_start, same.same_end) refl

pub add_reward_result_to_db-written :
    (lib : Library) (exchanges : List ExchangeConfig) (opt : DistOption) (exchange : String)
    (flags : ImportFlags) (now account : ℕ) (reward : ℤ) (share number : Option ℤ)
    (tx_hash : Option ℕ)
    → Matches lib opt exchange flags
    → add_reward_result_to_db lib exchanges flags now account reward share number tx_hash
      ≡ write_reward_result_to_db lib exchanges opt now exchange
          (account_text lib account)
          (lib.int_string reward)
          (share_text lib share)
          (number_value number)
          (hash_text lib tx_hash)
unfolding add_reward_result_to_db
add_reward_result_to_db-written lib exchanges opt exchange flags now account reward share number
      tx_hash same =
    simp same.wet (
      sym (
        result_of-written lib exchanges opt exchange flags flags.reward_type now account reward
          share number tx_hash same same.same_kind))

pub optional_hash-some :
    (lib : Library) (stat : AccountStat) (tx_hash : Option ℕ) (h : ℕ)
    → ComesBack lib stat tx_hash
    → tx_hash ≡ some h
    → optional_hash lib (lib.hash_string h) ≡ has_read (some h)
unfolding optional_hash
optional_hash-some lib stat tx_hash h back e =
    rw (back.some_hash h e, back.same_hash h e, eq_refl (lib.hash_string h)) refl

pub optional_hash-none : (lib : Library) → optional_hash lib "" ≡ has_read none
unfolding optional_hash
optional_hash-none lib = refl

pub optional_number-none :
    (lib : Library) (e : FileError) → optional_number lib e "" ≡ has_read none
unfolding optional_number
optional_number-none lib e = refl

pub optional_number-some :
    (lib : Library) (e : FileError) (text : String) (n : ℤ)
    → str_eq text "" ≡ false
    → lib.set_decimal text ≡ some n
    → optional_number lib e text ≡ has_read (some n)
unfolding optional_number
optional_number-some lib e text n filled same = rw (filled, same) refl

-- processLine once its texts are read.
pub process_parts-read :
    (lib : Library) (exchanges : List ExchangeConfig) (flags : ImportFlags) (now : ℕ)
    (stat : AccountStat) (tx_hash : Option ℕ) (reward : ℤ) (share_str number_str hash_str : String)
    (share number : Option ℤ) (h : Option ℕ)
    → ComesBack lib stat tx_hash
    → stat.reward ≡ some reward
    → optional_number lib wrong_share share_str ≡ has_read share
    → optional_number lib wrong_number number_str ≡ has_read number
    → optional_hash lib hash_str ≡ has_read h
    → process_parts lib exchanges flags now true (record {
      account_str = account_text lib stat.account;
      reward_str = reward_text lib stat.reward;
      share_str = share_str;
      number_str = number_str;
      tx_hash_str = hash_str;
    })
      ≡ has_read
          (add_reward_result_to_db lib exchanges flags now stat.account reward share number h)
unfolding process_parts
process_parts-read lib exchanges flags now stat tx_hash reward share_str number_str hash_str share
      number h back e es en eh =
    rw (back.is_address, back.same_address, e, back.same_reward reward e, es, en, eh) refl
