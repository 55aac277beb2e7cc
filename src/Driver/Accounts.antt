-- ===== src/Driver/Accounts.antt =====
-- distributer/option.go: GetAccountsAndRewards, GetAccountsAndShares and getAccounts, which read the
-- accounts of each exchange from a file or from the database.
use text.Mathlib.Text.{◌==◌ as str_eq}
use anytoken_distribution.Base.{ℕ, String, List, [], ◌∷◌, length, map, ◌==◌, if◌then◌else◌}
use anytoken_distribution.Reward.Stats.{AccountStat}
use anytoken_distribution.Distribute.NoVolumes.{NoVolumes}
use anytoken_distribution.Distribute.Options.{DistOption}
use anytoken_distribution.Volumes.Rewards.{Source, get_accounts_and_rewards_from_db}
use anytoken_distribution.Files.Lines.{
  get_accounts_and_rewards_from_file, get_accounts_and_shares_from_file,
}
use anytoken_distribution.Files.Accounts.{get_accounts_from_file}
use anytoken_distribution.Driver.Run.{
  Run, ends, fails, run_of, ended, read_of, ◌>>=◌, get_accounts_rewards_failed,
  get_accounts_shares_failed, get_account_list_failed,
}
use anytoken_distribution.Driver.Setting.{Setting}

-- getInputFileName at the head of the names, of which there may be too few.
abbrev pub input_file : List String → String
input_file [] = ""
input_file (name ∷ names) = name

abbrev pub later_files : List String → List String
later_files [] = []
later_files (name ∷ names) = names

abbrev pub source_of : Setting → DistOption → Source
source_of s opt = record s.src { archive_mode = opt.archive_mode }

-- One round of GetAccountsAndRewards.
unfoldable pub accounts_and_rewards :
    Setting → DistOption → String → String → NoVolumes → Run (List AccountStat × NoVolumes)
accounts_and_rewards s opt exchange name seen =
    if str_eq name ""
    then (do
      found ← run_of (
          get_accounts_and_rewards_from_db s.fuel (source_of s opt) opt.total_value exchange
            opt.start_height opt.end_height opt.step_count seen)
      ended found)
    else do
      (stats, title) ←
          read_of get_accounts_rewards_failed
            (get_accounts_and_rewards_from_file s.src.ex (s.file name))
      ends (stats, seen)

-- The loop of GetAccountsAndRewards over the exchanges.
unfoldable pub get_accounts_and_rewards :
    Setting
    → DistOption
    → List String
    → List String
    → NoVolumes
    → Run (List (List AccountStat) × NoVolumes)
unfolding accounts_and_rewards
get_accounts_and_rewards s opt [] names seen = ends ([], seen)
get_accounts_and_rewards s opt (exchange ∷ exchanges) names seen = do
  (stats, seen') ← accounts_and_rewards s opt exchange (input_file names) seen
  (rest, seen'') ← get_accounts_and_rewards s opt exchanges (later_files names) seen'
  ends (stats ∷ rest, seen'')

-- The loop of GetAccountsAndShares over the files.
unfoldable pub read_shares : Setting → DistOption → List String → Run (List (List AccountStat))
read_shares s opt [] = ends []
read_shares s opt (name ∷ names) = do
  stats ←
      read_of get_accounts_shares_failed
        (get_accounts_and_shares_from_file s.src.ex opt.sample_height (s.file name))
  rest ← read_shares s opt names
  ends (stats ∷ rest)

-- GetAccountsAndShares; the nil slice without files is empty.
unfoldable pub get_accounts_and_shares :
    Setting → DistOption → List String → Run (List (List AccountStat))
unfolding read_shares
get_accounts_and_shares s opt [] = ends []
get_accounts_and_shares s opt (name ∷ names) =
    if length (name ∷ names) == length opt.exchanges
    then read_shares s opt (name ∷ names)
    else fails get_accounts_shares_failed

-- FindAllAccounts, of mongodb/api.go.
unfoldable pub find_all_accounts : Setting → String → List ℕ
find_all_accounts s exchange =
    map (λ ma. s.src.ex.lib.hex_to_address ma.account)
      (s.find_accounts (λ ma. str_eq ma.exchange (s.src.ex.lib.to_lower exchange)))

-- The loop of getAccounts.
unfoldable pub get_accounts : Setting → List String → List String → Run (List (List ℕ))
unfolding find_all_accounts
get_accounts s [] names = ends []
get_accounts s (exchange ∷ exchanges) names = do
  accounts ←
      (if str_eq (input_file names) ""
        then ends (find_all_accounts s exchange)
        else read_of get_account_list_failed
            (get_accounts_from_file s.src.ex (s.file (input_file names))))
  rest ← get_accounts s exchanges (later_files names)
  ends (accounts ∷ rest)
