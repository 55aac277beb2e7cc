-- ===== src/Driver/FileSend.antt =====
-- distributer/sendtx.go: SendRewardsFromFile, which sends the rewards that files list, scaled; with
-- getScalingValue of cmd/distribute/sendrewards.go.
use text.Mathlib.Text.{◌==◌ as str_eq}
use anytoken_distribution.Base.{
  ℕ, ◌+◌, String, Option, none, some, List, [], ◌∷◌, length, Bool, false, ◌&&◌, not, ltb, ◌==◌,
  if◌then◌else◌,
}
use anytoken_distribution.Int.{ℤ, pos, ◌*ℤ◌, ◌/ℤ◌, ltb_ℤ}
use anytoken_distribution.Outcome.{Outcome, returns, panics, deref, ◌>>=◌}
use anytoken_distribution.Library.{Library}
use anytoken_distribution.Reward.Stats.{AccountStat, calc_total_reward}
use anytoken_distribution.Distribute.ByVolume.{is_zero_ℤ}
use anytoken_distribution.Distribute.Options.{
  CheckError, wrong_token, low_balance, ◌or◌, fails, DistOption, check_sender_reward_token_balance,
}
use anytoken_distribution.Distribute.Send.{Progress, start_sending}
use anytoken_distribution.Files.Lines.{
  FileError, FileResult, failed, has_read, get_accounts_and_rewards_from_file,
}
use anytoken_distribution.Driver.Setting.{Setting}
use anytoken_distribution.Driver.Dispatch.{
  DispatchError, Dispatched, noted, send_opened, start_dispatch,
}

-- The numerator and the denominator, each nil if it is `none`.
pub record Scaling : Type 0 where
  pub numerator : Option ℤ
  pub denominator : Option ℤ

abbrev unscaled : Scaling
unscaled = record { numerator = none; denominator = none }

abbrev is_one : ℤ → Bool
is_one (pos n) = n == 1
is_one _ = false

abbrev with_denominator : ℤ → Option ℤ → Option Scaling
with_denominator numerator none = none
with_denominator numerator (some denominator) =
    if is_zero_ℤ denominator
    then none
    else some (record { numerator = some numerator; denominator = some denominator })

abbrev scaling_of : Library → Option ℤ → List String → Option Scaling
scaling_of lib none parts = none
scaling_of lib (some numerator) [] =
    some
      (record { numerator = if is_one numerator then none else some numerator; denominator = none })
scaling_of lib (some numerator) (part ∷ parts) = with_denominator numerator (lib.set_string part)

abbrev scaling_parts : Library → List String → Option Scaling
scaling_parts lib [] = none
scaling_parts lib (part ∷ parts) =
    if ltb 1 (length parts) then none else scaling_of lib (lib.set_string part) parts

-- getScalingValue; `none` is a fatal error.
unfoldable pub get_scaling_value : Library → String → Option Scaling
get_scaling_value lib scaling_str =
    if str_eq scaling_str "" then some unscaled else scaling_parts lib (lib.split scaling_str)

-- A division by zero panics.
unfoldable pub scaled_down : ℤ → Option ℤ → Outcome ℤ
scaled_down reward none = returns reward
scaled_down reward (some denominator) =
    if is_zero_ℤ denominator then panics else returns (reward /ℤ denominator)

unfoldable pub scale_from : ℤ → Option ℤ → List AccountStat → Outcome (List AccountStat)
unfolding scaled_down
scale_from numerator denominator [] = returns []
scale_from numerator denominator (stat ∷ stats) = do
  reward ← deref stat.reward
  scaled ← scaled_down (reward *ℤ numerator) denominator
  rest ← scale_from numerator denominator stats
  returns (record stat { reward = some scaled } ∷ rest)

-- The loop that scales the rewards.
unfoldable pub scale_rewards : Scaling → List AccountStat → Outcome (List AccountStat)
unfolding scale_from
scale_rewards scaling stats = elim scaling.numerator [
  | none ↦ returns stats
  | some numerator ↦ scale_from numerator scaling.denominator stats
]

pub data FileSendError : Type 0 where
  wrong_count not_opened : FileSendError
  not_read : FileError → FileSendError
  not_covered : CheckError → FileSendError
  not_sent : DispatchError → FileSendError

unfoldable pub check_sender_coin_balance : DistOption → ℤ → Option CheckError
check_sender_coin_balance opt balance =
    fails (not (str_eq opt.reward_token "")) wrong_token
    or fails (ltb_ℤ balance opt.total_value && not opt.dry_run) low_balance

-- The check of the balance, of the token or of coins, against the total of a file.
unfoldable pub check_balance : DistOption → (total balance : ℤ) → Option CheckError
unfolding check_sender_coin_balance
check_balance options total balance =
    let opt : DistOption = record options { total_value = total } in
    if str_eq opt.reward_token ""
    then check_sender_coin_balance opt balance
    else check_sender_reward_token_balance opt balance

-- checkSendRewardsFromFile, from the accounts that the file gives; no accounts need no check.
unfoldable pub check_accounts :
    DistOption
    → Scaling
    → (balance : ℤ) → List AccountStat
    → Outcome (Option CheckError × List AccountStat)
unfolding scale_rewards check_balance
check_accounts opt scaling balance [] = returns (none, [])
check_accounts opt scaling balance (stat ∷ stats) = do
  scaled ← scale_rewards scaling (stat ∷ stats)
  total ← calc_total_reward scaled
  returns (check_balance opt total balance, scaled)

abbrev pub send_error : Option DispatchError × Progress → Option FileSendError × Progress
send_error (none, p) = (none, p)
send_error (some e, p) = (some (not_sent e), p)

-- The rest of sendRewardsFromFile, after the check of the balance.
unfoldable pub send_checked :
    Setting
    → DistOption
    → (i nonce : ℕ) → Option CheckError × List AccountStat
    → Option FileSendError × Progress
send_checked s opt i nonce (some e, stats) = (some (not_covered e), start_sending nonce)
send_checked s opt i nonce (none, stats) =
    if s.opens i
    then send_error (send_opened s opt i stats nonce none)
    else (some not_opened, start_sending nonce)

unfoldable pub send_read :
    Setting
    → DistOption
    → Scaling
    → (balance : ℤ) → (i nonce : ℕ) → FileResult (List AccountStat × String)
    → Outcome (Option FileSendError × Progress)
unfolding check_accounts send_checked
send_read s opt scaling balance i nonce (failed e) =
    returns (some (not_read e), start_sending nonce)
send_read s opt scaling balance i nonce (has_read (stats, title)) = do
  checked ← check_accounts opt scaling balance stats
  returns (send_checked s opt i nonce checked)

abbrev pub go_on_after :
    Option FileSendError × Progress
    → Dispatched
    → Outcome (Option FileSendError × Dispatched)
    → Outcome (Option FileSendError × Dispatched)
go_on_after (some e, p) d rest = returns (some e, noted p d)
go_on_after (none, p) d rest = rest

-- The loop of SendRewardsFromFile over the input files; `balances` is what the sender has before each
-- of them.
unfoldable pub send_files :
    Setting
    → DistOption
    → Scaling
    → (balances : ℕ → ℤ) → (i : ℕ) → List String
    → Dispatched
    → Outcome (Option FileSendError × Dispatched)
unfolding send_read
send_files s opt scaling balances i [] d = returns (none, d)
send_files s opt scaling balances i (name ∷ names) d = do
  result ←
      send_read s opt scaling (balances i) i d.nonce
        (get_accounts_and_rewards_from_file s.src.ex (s.file name))
  go_on_after result d (send_files s opt scaling balances (i + 1) names (noted result.1 d))

-- SendRewardsFromFile.
unfoldable pub send_rewards_from_file :
    Setting
    → DistOption
    → Scaling
    → (balances : ℕ → ℤ) → (inputs outputs : List String) → (nonce : ℕ)
    → Outcome (Option FileSendError × Dispatched)
unfolding send_files
send_rewards_from_file s opt scaling balances inputs outputs nonce =
    let fits =
      if length opt.exchanges == 0
      then length inputs == length outputs
      else length inputs == length opt.exchanges && length outputs == length opt.exchanges in
    if fits
    then send_files s opt scaling balances 0 inputs (start_dispatch nonce)
    else returns (some wrong_count, start_dispatch nonce)
