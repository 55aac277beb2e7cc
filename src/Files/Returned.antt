-- ===== src/Files/Returned.antt =====
-- A result that WriteSendRewardResult wrote comes back from an import as it was stored.
use anytoken_distribution.Base.{ℕ, String, ◌≡◌, sym, refl, ap, ◌∙◌, Option, none, some, List, true}
use anytoken_distribution.Int.{ℤ, pos}
use anytoken_distribution.Library.{Library}
use anytoken_distribution.Config.Exchanges.{ExchangeConfig}
use anytoken_distribution.Reward.Stats.{AccountStat}
use anytoken_distribution.Distribute.Options.{DistOption}
use anytoken_distribution.Files.Rows.{
  row_of, output_row, account_text, reward_text, share_text, hash_text, write_reward_result_to_db,
  write_send_reward_result,
}
use anytoken_distribution.Files.Lines.{has_read, wrong_number, wrong_share}
use anytoken_distribution.Files.Import.{
  ImportFlags, parts_of, ◌>>=◌, number_value, optional_number, optional_hash, process_parts,
  process_line,
}
use anytoken_distribution.Files.Texts.{
  ComesBack, IsNumbered, Matches, uint64_of_small, add_reward_result_to_db-written,
  optional_hash-some, optional_hash-none, optional_number-none, optional_number-some,
  process_parts-read,
}

-- What an import has read, once the texts are read, is what was stored.
process_parts-returned :
    (lib : Library) (exchanges : List ExchangeConfig) (opt : DistOption) (exchange : String)
    (flags : ImportFlags) (now : ℕ) (stat : AccountStat) (tx_hash : Option ℕ) (reward : ℤ)
    (share_str number_str hash_str : String) (share number : Option ℤ) (h : Option ℕ)
    → ComesBack lib stat tx_hash
    → Matches lib opt exchange flags
    → stat.reward ≡ some reward
    → optional_number lib wrong_share share_str ≡ has_read share
    → optional_number lib wrong_number number_str ≡ has_read number
    → optional_hash lib hash_str ≡ has_read h
    → number_value number ≡ stat.number
    → process_parts lib exchanges flags now true (record {
      account_str = account_text lib stat.account;
      reward_str = reward_text lib stat.reward;
      share_str = share_str;
      number_str = number_str;
      tx_hash_str = hash_str;
    })
      ≡ has_read (
          write_reward_result_to_db lib exchanges opt now exchange
            (account_text lib stat.account)
            (lib.int_string reward)
            (share_text lib share)
            stat.number
            (hash_text lib h))
process_parts-returned lib exchanges opt exchange flags now stat tx_hash reward share_str number_str
      hash_str share number h back same er es en eh e =
    process_parts-read lib exchanges flags now stat tx_hash reward share_str number_str hash_str
      share number h back er es en eh
    ∙ ap has_read (
        add_reward_result_to_db-written lib exchanges opt exchange flags now stat.account reward
          share number h same
        ∙ ap
            (λ (m : ℕ).
              write_reward_result_to_db lib exchanges opt now exchange
                (account_text lib stat.account) (lib.int_string reward) (share_text lib share) m
                (hash_text lib h))
            e)

-- The four shapes of a row.
row_of-returned :
    (lib : Library) (exchanges : List ExchangeConfig) (opt : DistOption) (exchange : String)
    (flags : ImportFlags) (now : ℕ) (stat : AccountStat) (tx_hash : Option ℕ) (reward : ℤ)
    (share : Option ℤ) (h : Option ℕ)
    → ComesBack lib stat tx_hash
    → Matches lib opt exchange flags
    → stat.reward ≡ some reward
    → stat.share ≡ share
    → tx_hash ≡ h
    → IsNumbered stat share
    → (parts_of (
          row_of lib
            (account_text lib stat.account)
            (reward_text lib stat.reward)
            (lib.format_uint stat.number)
            share
            h)
        >>= λ parts. process_parts lib exchanges flags now true parts)
      ≡ has_read (
          write_reward_result_to_db lib exchanges opt now exchange
            (account_text lib stat.account)
            (lib.int_string reward)
            (share_text lib share)
            stat.number
            (hash_text lib h))
unfolding parts_of
row_of-returned lib exchanges opt exchange flags now stat tx_hash reward none none back same er es
      eh number =
    process_parts-returned lib exchanges opt exchange flags now stat tx_hash reward _ _ _ none none
      none back same er (optional_number-none lib wrong_share)
      (optional_number-none lib wrong_number) (optional_hash-none lib) (sym number)
row_of-returned lib exchanges opt exchange flags now stat tx_hash reward none (some h) back same er
      es eh number =
    process_parts-returned lib exchanges opt exchange flags now stat tx_hash reward _ _ _ none none
      (some h) back same er (optional_number-none lib wrong_share)
      (optional_number-none lib wrong_number) (optional_hash-some lib stat tx_hash h back eh)
      (sym number)
row_of-returned lib exchanges opt exchange flags now stat tx_hash reward (some share) none back same
      er es eh number =
    process_parts-returned lib exchanges opt exchange flags now stat tx_hash reward _ _ _
      (some share) (some (pos stat.number)) none back same er
      (optional_number-some lib wrong_share _ share (back.some_share share es)
        (back.same_share share es))
      (optional_number-some lib wrong_number _ _ back.some_number back.same_number)
      (optional_hash-none lib) (uint64_of_small stat.number number)
row_of-returned lib exchanges opt exchange flags now stat tx_hash reward (some share) (some h) back
      same er es eh number =
    process_parts-returned lib exchanges opt exchange flags now stat tx_hash reward _ _ _
      (some share) (some (pos stat.number)) (some h) back same er
      (optional_number-some lib wrong_share _ share (back.some_share share es)
        (back.same_share share es))
      (optional_number-some lib wrong_number _ _ back.some_number back.same_number)
      (optional_hash-some lib stat tx_hash h back eh) (uint64_of_small stat.number number)

-- A line that WriteSendRewardResult writes for a result with a reward (with a share and its number,
-- or without both; with a transaction or without), imported with the flags of the distribution,
-- which is saved and by volume or by liquidity: processLine ends without an error, and adds to the
-- database exactly what WriteSendRewardResult added, if the time is the same. The libraries read the
-- texts of the result as they wrote them.
pub process_line-written :
    (lib : Library) (exchanges : List ExchangeConfig) (opt : DistOption) (exchange : String)
    (flags : ImportFlags) (now : ℕ) (stat : AccountStat) (tx_hash : Option ℕ) (reward : ℤ)
    → ComesBack lib stat tx_hash
    → Matches lib opt exchange flags
    → stat.reward ≡ some reward
    → IsNumbered stat stat.share
    → let written = write_send_reward_result lib exchanges opt now exchange stat tx_hash in
      process_line lib exchanges flags now written.0 true ≡ has_read written.1
unfolding process_line write_send_reward_result output_row
process_line-written lib exchanges opt exchange flags now stat tx_hash reward back same er number =
    simp back.split_row (
      row_of-returned lib exchanges opt exchange flags now stat tx_hash reward stat.share tx_hash
        back same er refl refl number
      ∙ ap
          (λ (r : Option ℤ). has_read (
            write_reward_result_to_db lib exchanges opt now exchange (account_text lib stat.account)
              (reward_text lib r) (share_text lib stat.share) stat.number (hash_text lib tx_hash)))
          (sym er))
