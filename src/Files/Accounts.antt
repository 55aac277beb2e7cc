-- ===== src/Files/Accounts.antt =====
-- distributer/option.go and util.go: getAccountsFromFile and IsAccountExist.
use anytoken_distribution.Base.{
  ℕ, String, Option, none, some, List, [], ◌∷◌, ◌++◌, contains, not, if◌then◌else◌,
}
use anytoken_distribution.Config.Lookups.{is_excluded_reward_account}
use anytoken_distribution.Volumes.Find.{Excluding}
use anytoken_distribution.Files.Lines.{
  not_opened, wrong_address, Line, skipped, rejected, accepted, FileResult, failed, has_read,
  is_commented_line,
}

-- IsAccountExist is `contains`. One line, with the accounts so far.
unfoldable pub account_line : Excluding → String → List ℕ → Line ℕ
account_line ex raw accounts =
    let line = ex.lib.trim_space raw in
    let account = ex.lib.hex_to_address line in
    if is_commented_line line
    then skipped
    else if not (ex.lib.is_hex_address line)
    then rejected wrong_address
    else if is_excluded_reward_account ex.lib ex.exchanges ex.all account
    then skipped
    else if contains account accounts
    then skipped
    else accepted account

-- The accounts after a line.
abbrev pub with_line : Line ℕ → List ℕ → FileResult (List ℕ)
with_line skipped accounts = has_read accounts
with_line (rejected e) accounts = failed e
with_line (accepted account) accounts = has_read (accounts ++ account ∷ [])

abbrev pub go_through : FileResult (List ℕ) → (List ℕ → FileResult (List ℕ)) → FileResult (List ℕ)
go_through (failed e) f = failed e
go_through (has_read accounts) f = f accounts

unfoldable pub account_lines : Excluding → List String → List ℕ → FileResult (List ℕ)
unfolding account_line
account_lines ex [] accounts = has_read accounts
account_lines ex (raw ∷ lines) accounts =
    go_through (with_line (account_line ex raw accounts) accounts)
      (λ accounts'. account_lines ex lines accounts')

unfoldable pub get_accounts_from_file : Excluding → Option (List String) → FileResult (List ℕ)
unfolding account_lines
get_accounts_from_file ex none = failed not_opened
get_accounts_from_file ex (some lines) = account_lines ex lines []
