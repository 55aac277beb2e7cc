-- ===== src/Files/ReadBack.antt =====
-- What WriteSendRewardResult writes is read back by GetAccountsAndRewardsFromFile.
use anytoken_distribution.Base.{
  ℕ, ◌<◌, suc, String, ◌≡◌, refl, ◌∙◌, Option, none, some, List, [], ◌∷◌, map, All, true, false,
  gt→leb, arith, word,
}
use anytoken_distribution.Int.{ℤ, pos}
use anytoken_distribution.Config.Lookups.{is_excluded_reward_account}
use anytoken_distribution.Reward.Stats.{AccountStat}
use anytoken_distribution.Distribute.Options.{DistOption}
use anytoken_distribution.Volumes.Find.{Excluding}
use anytoken_distribution.Files.Rows.{
  join, account_text, reward_text, row_of, output_row, write_send_reward_result,
}
use anytoken_distribution.Files.Lines.{
  accepted, has_read, is_commented_line, uint64_of, with_share, reward_line, line_of, read_lines,
  title_of, get_accounts_and_rewards_from_file,
}

-- A result: the statistic of an account, and the hash of its transaction.
abbrev pub Sent : Type 0
Sent = AccountStat × Option ℕ

-- That the libraries read a row as it was written: the line splits into the row and is no comment,
-- and the texts of the account and of the numbers stand for them.
pub record ReadsBack (ex : Excluding) (sent : Sent) : Type 0 where
  pub split_row :
      ex.lib.split (ex.lib.trim_space (join (output_row ex.lib sent.0 sent.1)))
      ≡ output_row ex.lib sent.0 sent.1
  pub no_comment :
      is_commented_line (ex.lib.trim_space (join (output_row ex.lib sent.0 sent.1))) ≡ false
  pub is_address : ex.lib.is_hex_address (account_text ex.lib sent.0.account) ≡ true
  pub same_address : ex.lib.hex_to_address (account_text ex.lib sent.0.account) ≡ sent.0.account
  pub same_reward :
      (n : ℤ) → sent.0.reward ≡ some n → ex.lib.set_string (ex.lib.int_string n) ≡ some n
  pub same_share :
      (n : ℤ) → sent.0.share ≡ some n → ex.lib.set_string (ex.lib.int_string n) ≡ some n
  pub same_number : ex.lib.set_string (ex.lib.format_uint sent.0.number) ≡ some (pos sent.0.number)

-- A result with a positive reward, of an account that is not excluded.
pub record IsPayable (ex : Excluding) (sent : Sent) : Type 0 where
  pub units : ℕ
  pub rewarded : sent.0.reward ≡ some (pos (suc units))
  pub included : is_excluded_reward_account ex.lib ex.exchanges ex.all sent.0.account ≡ false
  pub small : sent.0.number < word

-- The number is written with a share only.
abbrev pub keep_number : AccountStat → Option ℤ → AccountStat
keep_number stat none = record stat { share = none; number = 0 }
keep_number stat (some share) = stat

abbrev pub reread : Sent → AccountStat
reread (stat, tx_hash) = keep_number stat stat.share

uint64_of_small : (n : ℕ) → n < word → uint64_of (pos n) ≡ n
uint64_of_small n h = omega arith

-- The account and the reward are read, whatever follows them.
reward_line-cons :
    (ex : Excluding) (stat : AccountStat) (tx_hash : Option ℕ) (rest : List String)
    → ReadsBack ex (stat, tx_hash)
    → (pay : IsPayable ex (stat, tx_hash))
    → reward_line ex (account_text ex.lib stat.account ∷ reward_text ex.lib stat.reward ∷ rest)
      ≡ with_share ex stat.account (pos (suc pay.units)) rest
unfolding reward_line
reward_line-cons ex stat tx_hash rest back pay =
    rw
      (
        pay.rewarded,
        back.is_address,
        back.same_address,
        pay.included,
        back.same_reward (pos (suc pay.units)) pay.rewarded,
        gt→leb (suc pay.units) 0 (omega arith),
      )
      refl

with_share-cons :
    (ex : Excluding) (stat : AccountStat) (tx_hash : Option ℕ) (share : ℤ) (rest : List String)
    → ReadsBack ex (stat, tx_hash)
    → (pay : IsPayable ex (stat, tx_hash)) → stat.share ≡ some share
    → with_share ex stat.account
        (pos (suc pay.units))
        (ex.lib.int_string share ∷ ex.lib.format_uint stat.number ∷ rest)
      ≡ accepted stat
unfolding with_share
with_share-cons ex stat tx_hash share rest back pay e =
    rw (back.same_share share e, back.same_number, uint64_of_small stat.number pay.small)
      (rw (← pay.rewarded, ← e) refl)

with_share-none :
    (ex : Excluding) (stat : AccountStat) (tx_hash : Option ℕ)
    → (pay : IsPayable ex (stat, tx_hash))
    → accepted (record {
      account = stat.account;
      reward = some (pos (suc pay.units));
      share = none;
      number = 0;
    })
      ≡ accepted (record stat { share = none; number = 0 })
with_share-none ex stat tx_hash pay = rw (← pay.rewarded) refl

row_of-read :
    (ex : Excluding) (stat : AccountStat) (tx_hash : Option ℕ) (share : Option ℤ) (h : Option ℕ)
    → ReadsBack ex (stat, tx_hash)
    → IsPayable ex (stat, tx_hash)
    → stat.share ≡ share
    → reward_line ex (
        row_of ex.lib
          (account_text ex.lib stat.account)
          (reward_text ex.lib stat.reward)
          (ex.lib.format_uint stat.number)
          share
          h)
      ≡ accepted (keep_number stat share)
unfolding with_share
row_of-read ex stat tx_hash none none back pay e =
    reward_line-cons ex stat tx_hash [] back pay ∙ with_share-none ex stat tx_hash pay
row_of-read ex stat tx_hash none (some h) back pay e =
    reward_line-cons ex stat tx_hash _ back pay ∙ with_share-none ex stat tx_hash pay
row_of-read ex stat tx_hash (some share) none back pay e =
    reward_line-cons ex stat tx_hash _ back pay
    ∙ with_share-cons ex stat tx_hash share [] back pay e
row_of-read ex stat tx_hash (some share) (some h) back pay e =
    reward_line-cons ex stat tx_hash _ back pay
    ∙ with_share-cons ex stat tx_hash share (ex.lib.hash_string h ∷ []) back pay e

line_of-row :
    (ex : Excluding) (sent : Sent)
    → ReadsBack ex sent
    → IsPayable ex sent
    → line_of ex (reward_line ex) (join (output_row ex.lib sent.0 sent.1)) ≡ accepted (reread sent)
unfolding output_row
line_of-row ex (stat, tx_hash) back pay =
    rw (back.no_comment, back.split_row)
      (row_of-read ex stat tx_hash stat.share tx_hash back pay refl)

-- The lines that WriteSendRewardResult writes.
abbrev pub written_lines : Excluding → DistOption → (now : ℕ) → String → List Sent → List String
written_lines ex opt now exchange results =
    map (λ sent. (write_send_reward_result ex.lib ex.exchanges opt now exchange sent.0 sent.1).0)
      results

read_lines-written :
    (ex : Excluding) (opt : DistOption) (now : ℕ) (exchange : String) (results : List Sent)
    → All (ReadsBack ex) results
    → All (IsPayable ex) results
    → read_lines ex (reward_line ex) (written_lines ex opt now exchange results)
      ≡ has_read (map reread results)
unfolding read_lines write_send_reward_result
read_lines-written ex opt now exchange [] back pay = refl
read_lines-written ex opt now exchange (sent ∷ results) back pay =
    rw
      (
        line_of-row ex sent back.0 pay.0,
        read_lines-written ex opt now exchange results back.1 pay.1,
      )
      refl

title_of-written :
    (ex : Excluding) (opt : DistOption) (now : ℕ) (exchange : String) (results : List Sent)
    → All (ReadsBack ex) results
    → title_of ex (written_lines ex opt now exchange results) ≡ ""
unfolding write_send_reward_result
title_of-written ex opt now exchange [] back = refl
title_of-written ex opt now exchange (sent ∷ results) back = rw back.0.no_comment refl

-- The lines that WriteSendRewardResult writes, of results with positive rewards (with a share or
-- without, with a transaction or without) and of accounts that are not excluded, are read back by
-- GetAccountsAndRewardsFromFile: it returns their accounts, rewards and shares in their order, with
-- the numbers of those that have a share, and no title. The libraries read the texts of these
-- results as they wrote them.
pub get_accounts_and_rewards_from_file-written :
    (ex : Excluding) (opt : DistOption) (now : ℕ) (exchange : String) (results : List Sent)
    → All (ReadsBack ex) results
    → All (IsPayable ex) results
    → get_accounts_and_rewards_from_file ex (some (written_lines ex opt now exchange results))
      ≡ has_read (map reread results, "")
unfolding get_accounts_and_rewards_from_file
get_accounts_and_rewards_from_file-written ex opt now exchange results back pay =
    rw
      (
        read_lines-written ex opt now exchange results back pay,
        title_of-written ex opt now exchange results back,
      )
      refl
