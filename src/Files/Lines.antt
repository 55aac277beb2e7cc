-- ===== src/Files/Lines.antt =====
-- distributer/option.go: GetAccountsAndRewardsFromFile and GetAccountsAndSharesFromFile. A file is
-- the list of its lines, or `none` if it cannot be opened.
use text.Mathlib.Text.{starts_with}
use anytoken_distribution.Base.{
  ℕ, ◌+◌, ◌%◌, ◌^◌, String, Option, none, some, List, [], ◌∷◌, Bool, not, ◌||◌, if◌then◌else◌,
}
use anytoken_distribution.Int.{ℤ, pos_part, neg_part, is_nonpositive}
use anytoken_distribution.Config.Lookups.{is_excluded_reward_account}
use anytoken_distribution.Reward.Stats.{AccountStat}
use anytoken_distribution.Volumes.Find.{Excluding}

pub data FileError : Type 0 where
  not_opened few_parts wrong_address wrong_reward wrong_share wrong_number wrong_hash : FileError

-- A line is passed over, ends the reading, or gives something.
pub data Line (A : Type 0) : Type 0 where
  skipped : Line A
  rejected : FileError → Line A
  accepted : A → Line A

pub data FileResult (A : Type 0) : Type 0 where
  failed : FileError → FileResult A
  has_read : A → FileResult A

abbrev pub is_commented_line : String → Bool
is_commented_line line = starts_with line "#" || starts_with line "//"

-- `big.Int.Uint64`: the low 64 bits of the absolute value.
abbrev pub uint64_of : ℤ → ℕ
uint64_of n = (pos_part n + neg_part n) % 2 ^ 64

-- The share and the number, if the line has them.
abbrev pub with_number : (account : ℕ) → ℤ → Option ℤ → Option ℤ → Line AccountStat
with_number account reward none number = rejected wrong_share
with_number account reward (some share) none = rejected wrong_number
with_number account reward (some share) (some number) = accepted (record {
  account = account;
  reward = some reward;
  share = some share;
  number = uint64_of number;
})

unfoldable pub with_share : Excluding → (account : ℕ) → ℤ → List String → Line AccountStat
with_share ex account reward (share_str ∷ number_str ∷ _) =
    with_number account reward (ex.lib.set_string share_str) (ex.lib.set_string number_str)
with_share ex account reward _ =
    accepted (record { account = account; reward = some reward; share = none; number = 0 })

abbrev pub with_reward : Excluding → (account : ℕ) → Option ℤ → List String → Line AccountStat
with_reward ex account none rest = rejected wrong_reward
with_reward ex account (some reward) rest =
    if is_nonpositive reward then skipped else with_share ex account reward rest

-- A line that is no comment, split into its parts.
unfoldable pub reward_line : Excluding → List String → Line AccountStat
unfolding with_share
reward_line ex (account_str ∷ reward_str ∷ rest) =
    let account = ex.lib.hex_to_address account_str in
    if not (ex.lib.is_hex_address account_str)
    then rejected wrong_address
    else if is_excluded_reward_account ex.lib ex.exchanges ex.all account
    then skipped
    else with_reward ex account (ex.lib.set_string reward_str) rest
reward_line ex _ = rejected few_parts

abbrev pub with_share_only : (sample_height account : ℕ) → Option ℤ → Line AccountStat
with_share_only sample_height account none = rejected wrong_share
with_share_only sample_height account (some share) =
    if is_nonpositive share
    then skipped
    else accepted
        (record { account = account; reward = none; share = some share; number = sample_height })

unfoldable pub share_line : Excluding → (sample_height : ℕ) → List String → Line AccountStat
share_line ex sample_height (account_str ∷ share_str ∷ _) =
    let account = ex.lib.hex_to_address account_str in
    if not (ex.lib.is_hex_address account_str)
    then rejected wrong_address
    else if is_excluded_reward_account ex.lib ex.exchanges ex.all account
    then skipped
    else with_share_only sample_height account (ex.lib.set_string share_str)
share_line ex sample_height _ = rejected few_parts

-- What a line does to what the lines after it give.
abbrev pub add_line : {A : Type 0} → Line A → FileResult (List A) → FileResult (List A)
add_line skipped later = later
add_line (rejected e) later = failed e
add_line (accepted a) (failed e) = failed e
add_line (accepted a) (has_read later) = has_read (a ∷ later)

abbrev pub line_of : {A : Type 0} → Excluding → (List String → Line A) → String → Line A
line_of ex parse raw =
    let line = ex.lib.trim_space raw in
    if is_commented_line line then skipped else parse (ex.lib.split line)

-- The loop over the lines.
unfoldable pub read_lines :
    {A : Type 0} → Excluding → (List String → Line A) → List String → FileResult (List A)
read_lines ex parse [] = has_read []
read_lines ex parse (raw ∷ lines) = add_line (line_of ex parse raw) (read_lines ex parse lines)

-- The title line: the first line, if it is a comment.
abbrev pub title_of : Excluding → List String → String
title_of ex [] = ""
title_of ex (raw ∷ _) =
    let line = ex.lib.trim_space raw in if is_commented_line line then line else ""

abbrev pub with_title :
    String → FileResult (List AccountStat) → FileResult (List AccountStat × String)
with_title title (failed e) = failed e
with_title title (has_read stats) = has_read (stats, title)

unfoldable pub get_accounts_and_rewards_from_file :
    Excluding → Option (List String) → FileResult (List AccountStat × String)
unfolding reward_line read_lines
get_accounts_and_rewards_from_file ex none = failed not_opened
get_accounts_and_rewards_from_file ex (some lines) =
    with_title (title_of ex lines) (read_lines ex (reward_line ex) lines)

unfoldable pub get_accounts_and_shares_from_file :
    Excluding → (sample_height : ℕ) → Option (List String) → FileResult (List AccountStat)
unfolding share_line read_lines
get_accounts_and_shares_from_file ex sample_height none = failed not_opened
get_accounts_and_shares_from_file ex sample_height (some lines) =
    read_lines ex (share_line ex sample_height) lines
