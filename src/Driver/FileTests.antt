-- ===== src/Driver/FileTests.antt =====
-- SendRewardsFromFile with a file of one line, and the scaling of its rewards.
use anytoken_distribution.Base.{
  ◌≡◌, refl, none, some, Option, List, [], ◌∷◌, false, true, arith, inl,
}
use anytoken_distribution.Int.{pos, ◌+ℤ◌, ◌*ℤ◌, ◌/ℤ◌, sum}
use anytoken_distribution.Outcome.{returns, deref_all}
use anytoken_distribution.Library.Sample.{sample}
use anytoken_distribution.Config.Lookups.{
  is_excluded_reward_account, is_configed_exchange, get_exchange_pairs, is_in_all_exchanges,
}
use anytoken_distribution.Reward.Stats.{AccountStat, calc_total_reward}
use anytoken_distribution.Distribute.Send.{Progress}
use anytoken_distribution.Distribute.Nonces.{HasRoom}
use anytoken_distribution.Distribute.Options.{custom, DistOption, check_sender_reward_token_balance}
use anytoken_distribution.Files.Lines.{
  get_accounts_and_rewards_from_file, reward_line, with_share, read_lines,
}
use anytoken_distribution.Driver.Quiet.{quiet}
use anytoken_distribution.Driver.Setting.{Setting}
use anytoken_distribution.Driver.Dispatch.{Dispatched}
use anytoken_distribution.Driver.Dispatched.{IsDispatched, total_sended, payable_total}
use anytoken_distribution.Driver.FileSend.{
  Scaling, get_scaling_value, scale_rewards, scale_from, scaled_down, FileSendError, check_accounts,
  check_balance, check_sender_coin_balance, send_rewards_from_file,
}
use anytoken_distribution.Driver.Covered.{AllCovered, AllRead}
use anytoken_distribution.Driver.FileSent.{SentCovered, onto, send_rewards_from_file-Totals}

abbrev setting : Setting
setting = record quiet { file = λ name. some ("0x1,7,7,7" ∷ []) }

abbrev options : DistOption
options = record {
  by_what = custom;
  total_value = pos 0;
  start_height = 0;
  end_height = 0;
  stable_height = 0;
  step_count = 0;
  step_reward = none;
  exchanges = [];
  weights = [];
  reward_token = "0x2";
  sample_height = 0;
  save_db = false;
  dry_run = false;
  archive_mode = false;
  weight_is_percentage = false;
  scaling_denominator = some (pos 3);
}

abbrev scaling : Scaling
scaling = record { numerator = some (pos 2); denominator = some (pos 3) }

-- A numerator of 7 alone is kept, and an empty text scales nothing.
scaling-7 :
    get_scaling_value sample "7" ≡ some (record { numerator = some (pos 7); denominator = none })
unfolding get_scaling_value
scaling-7 = refl

-- 7 * 2 / 3, rounded down.
abbrev scaled : List (List AccountStat)
scaled = (record { account = 1; reward = some (pos 4); share = some (pos 7); number = 7 } ∷ []) ∷ []

scaled-AllRead : AllRead setting options scaling (λ i. pos 100) 0 ("a.csv" ∷ []) scaled
unfolding get_accounts_and_rewards_from_file reward_line with_share read_lines check_accounts
    scale_rewards scale_from scaled_down calc_total_reward check_balance check_sender_coin_balance
    check_sender_reward_token_balance deref_all sum is_excluded_reward_account is_configed_exchange
    get_exchange_pairs is_in_all_exchanges ◌+ℤ◌ ◌*ℤ◌ ◌/ℤ◌
scaled-AllRead = (
  (
    record { account = 1; reward = some (pos 7); share = some (pos 7); number = 7 } ∷ [],
    "",
    none,
    refl,
    refl,
  ),
  tt,
)

silent-HasRoom : HasRoom 1 (record { pending = none; signs = true; accepts = true })
silent-HasRoom n e = cc

send_rewards_from_file-Totals_example :
    (failure : Option FileSendError) × (d : Dispatched) × (send_rewards_from_file setting options
        scaling
        (λ i. pos 100)
        ("a.csv" ∷ [])
        ("b.csv" ∷ [])
        8
      ≡ returns (failure, d))
    × IsDispatched setting options 0 d
    × (failure ≡ none → total_sended d.loops ≡ payable_total scaled)
    × (failure ≡ none → options.dry_run ≡ false → AllCovered (λ i. pos 100) 0 scaled)
    × (options.dry_run ≡ false
        → (runs : List Progress) × (d.loops ≡ onto runs [])
          × SentCovered (λ i. pos 100) 0 scaled runs)
send_rewards_from_file-Totals_example =
    send_rewards_from_file-Totals setting options scaling (λ i. pos 100) ("a.csv" ∷ [])
      ("b.csv" ∷ []) scaled 8 refl (inl refl) scaled-AllRead (omega arith) (λ i j. silent-HasRoom)
