-- ===== src/Driver/Dispatch.antt =====
-- distributer/dispatchrewards.go: dispatchRewards, which sends the rewards of each exchange in turn
-- and records them. The output rows are in Files.Rows; the pauses are left out.
use Prim.Native.String.{◌++◌ as ◌+++◌}
use anytoken_distribution.Base.{
  ℕ, ◌+◌, String, Option, none, some, List, [], ◌∷◌, Bool, true, false, ◌&&◌, not, if◌then◌else◌,
}
use anytoken_distribution.Int.{ℤ, is_nonpositive}
use anytoken_distribution.Outcome.{Outcome, returns, panics}
use anytoken_distribution.Library.{Library}
use anytoken_distribution.Config.Lookups.{get_exchange_pairs}
use anytoken_distribution.Reward.Stats.{AccountStat}
use anytoken_distribution.Distribute.Options.{
  ByWhat, unset, by_liquid, by_volume, custom, DistOption,
}
use anytoken_distribution.Distribute.Send.{Sender, Progress, send_rewards, start_sending}
use anytoken_distribution.Files.Rows.{join}
use anytoken_distribution.Driver.Setting.{Setting}

pub data DispatchError : Type 0 where
  not_opened unknown_by_what not_written send_transaction_failed : DispatchError

-- The key is made by the driver.
pub record MgoDistributeInfo : Type 0 where
  pub exchange : String
  pub pairs : String
  pub by_what : ByWhat
  pub start : ℕ
  pub end : ℕ
  pub reward_token : String
  pub rewards : String
  pub sample_height : ℕ
  pub timestamp : ℕ

-- The nonce, the loops over the accounts of the exchanges so far, and the records that they leave,
-- each the latest first.
pub record Dispatched : Type 0 where
  pub nonce : ℕ
  pub loops : List Progress
  pub infos : List MgoDistributeInfo

-- SendRewardsTransaction: what it passes to sendRewardsTransaction.
abbrev pub sender_of : Setting → DistOption → Sender
sender_of s opt = record {
  dust_threshold = s.dust_threshold;
  reward_token = s.src.ex.lib.hex_to_address opt.reward_token;
  is_dry_run = opt.dry_run;
}

abbrev pub common_info : Library → DistOption → String → String
common_info lib opt exchange =
    "&&start="
    +++ lib.format_uint opt.start_height
    +++ "&&end="
    +++ lib.format_uint opt.end_height
    +++ "&&totalReward="
    +++ lib.int_string opt.total_value
    +++ "&&exchange="
    +++ lib.to_lower exchange
    +++ "&&rewardToken="
    +++ lib.to_lower opt.reward_token

abbrev pub title_row : Bool → (key_share key_number extra : String) → String
title_row true key_share key_number extra =
    join ("#account" ∷ "reward" ∷ key_share ∷ key_number ∷ extra ∷ [])
title_row false key_share key_number extra =
    join ("#account" ∷ "reward" ∷ key_share ∷ key_number ∷ "txhash" ∷ extra ∷ [])

-- The line that writeSendRewardTitleLine writes.
unfoldable pub title_line : Library → DistOption → (no_volumes : ℕ) → String → Option String
title_line lib opt no_volumes exchange = elim opt.by_what [
  | by_liquid ↦ some (
      title_row opt.dry_run "liquidity" "height"
        ("sampleHeight=" +++ lib.format_uint opt.sample_height +++ common_info lib opt exchange))
  | by_volume ↦ some (
      title_row opt.dry_run "volume" "txcount"
        ("novolumes=" +++ lib.format_uint no_volumes +++ common_info lib opt exchange))
  | custom ↦ none
  | unset ↦ none
]

-- What fails before the loop over the accounts.
unfoldable pub opening_error :
    Setting → DistOption → (no_volumes i : ℕ) → String → Option DispatchError
opening_error s opt no_volumes i exchange =
    if not (s.opens i)
    then some not_opened
    else elim (title_line s.src.ex.lib opt no_volumes exchange) [
      | none ↦ some unknown_by_what
      | some line ↦ if s.writes i then none else some not_written
    ]

abbrev pub ending_error : Bool × Progress → Option DispatchError × Progress
ending_error (true, p) = (none, p)
ending_error (false, p) = (some send_transaction_failed, p)

-- The rest of sendRewards, after what fails at its beginning.
unfoldable pub send_opened :
    Setting
    → DistOption
    → (i : ℕ) → List AccountStat
    → (nonce : ℕ) → Option DispatchError
    → Option DispatchError × Progress
send_opened s opt i stats nonce (some e) = (some e, start_sending nonce)
send_opened s opt i stats nonce none =
    ending_error (send_rewards (sender_of s opt) (s.nodes i) 0 stats (start_sending nonce))

-- sendRewards: the error, and the variables of its loop.
unfoldable pub send_exchange :
    Setting
    → DistOption
    → (no_volumes i : ℕ) → String
    → List AccountStat
    → (nonce : ℕ) → Option DispatchError × Progress
unfolding opening_error send_opened
send_exchange s opt no_volumes i exchange stats nonce =
    send_opened s opt i stats nonce (opening_error s opt no_volumes i exchange)

abbrev pub info_of : Setting → DistOption → (i : ℕ) → String → ℤ → MgoDistributeInfo
info_of s opt i exchange rewards = record {
  exchange = s.src.ex.lib.to_lower exchange;
  pairs = get_exchange_pairs s.src.ex.lib s.src.ex.exchanges exchange;
  by_what = opt.by_what;
  start = opt.start_height;
  end = opt.end_height;
  reward_token = opt.reward_token;
  rewards = s.src.ex.lib.int_string rewards;
  sample_height = opt.sample_height;
  timestamp = s.clock i;
}

abbrev pub noted : Progress → Dispatched → Dispatched
noted p d = record d { nonce = p.nonce; loops = p ∷ d.loops }

-- What an exchange that ended without an error leaves.
unfoldable pub record_exchange :
    Setting → DistOption → (i : ℕ) → String → Progress → Dispatched → Dispatched
record_exchange s opt i exchange p d =
    let d' = noted p d in
    if opt.save_db && not (is_nonpositive p.rewards_sended)
    then record d' { infos = info_of s opt i exchange p.rewards_sended ∷ d.infos }
    else d'

-- An error ends the loop.
abbrev pub stop_at :
    Option DispatchError
    → Dispatched
    → Outcome (Option DispatchError × Dispatched)
    → Outcome (Option DispatchError × Dispatched)
stop_at (some e) d rest = returns (some e, d)
stop_at none d rest = rest

-- The loop of dispatchRewards; it panics when there are fewer slices than exchanges.
unfoldable pub dispatch_from :
    Setting
    → DistOption
    → (no_volumes i : ℕ) → List String
    → List (List AccountStat)
    → Dispatched
    → Outcome (Option DispatchError × Dispatched)
unfolding send_exchange record_exchange
dispatch_from s opt no_volumes i [] stats d = returns (none, d)
dispatch_from s opt no_volumes i (exchange ∷ exchanges) [] d = panics
dispatch_from s opt no_volumes i (exchange ∷ exchanges) (stat ∷ stats) d =
    let (failure, p) = send_exchange s opt no_volumes i exchange stat d.nonce in
    let rest =
      dispatch_from s opt no_volumes (i + 1) exchanges stats
        (record_exchange s opt i exchange p d) in
    stop_at failure (noted p d) rest

unfoldable pub start_dispatch : (nonce : ℕ) → Dispatched
start_dispatch nonce = record { nonce = nonce; loops = []; infos = [] }

unfoldable pub dispatch_rewards :
    Setting
    → DistOption
    → (no_volumes nonce : ℕ) → List (List AccountStat)
    → Outcome (Option DispatchError × Dispatched)
unfolding dispatch_from start_dispatch
dispatch_rewards s opt no_volumes nonce stats =
    dispatch_from s opt no_volumes 0 opt.exchanges stats (start_dispatch nonce)
