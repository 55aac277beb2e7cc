-- ===== src/Files/Tests.antt =====
-- Rows of results, written, read and imported.
use anytoken_distribution.Base.{
  ℕ, String, ◌≡◌, refl, ap, some, none, Option, List, [], ◌∷◌, map, Distinct, contains, true, false,
  arith,
}
use anytoken_distribution.Int.{ℤ, pos}
use anytoken_distribution.Library.Sample.{sample}
use anytoken_distribution.Config.Lookups.{
  is_excluded_reward_account, is_configed_exchange, get_exchange_pairs, is_in_all_exchanges,
}
use anytoken_distribution.Reward.Stats.{AccountStat}
use anytoken_distribution.Distribute.Options.{by_volume, DistOption}
use anytoken_distribution.Volumes.Find.{Excluding}
use anytoken_distribution.Files.Rows.{output_row, write_send_reward_result}
use anytoken_distribution.Files.Lines.{has_read, get_accounts_and_rewards_from_file}
use anytoken_distribution.Files.ReadBack.{
  Sent, ReadsBack, IsPayable, reread, written_lines, get_accounts_and_rewards_from_file-written,
}
use anytoken_distribution.Files.Import.{volume, ImportFlags, process_line}
use anytoken_distribution.Files.Texts.{ComesBack, Matches}
use anytoken_distribution.Files.Returned.{process_line-written}
use anytoken_distribution.Files.Accounts.{account_line, account_lines, get_accounts_from_file}
use anytoken_distribution.Files.Distinct.{any_names, get_accounts_from_file-Distinct}

abbrev ex : Excluding
ex = record { lib = sample; exchanges = []; all = record { all_tokens = []; all_exchanges = [] } }

abbrev stat : AccountStat
stat = record { account = 1; reward = some (pos 7); share = some (pos 7); number = 7 }

abbrev opt : DistOption
opt = record {
  by_what = by_volume;
  total_value = pos 100;
  start_height = 0;
  end_height = 6600;
  stable_height = 0;
  step_count = 0;
  step_reward = none;
  exchanges = "0xe" ∷ [];
  weights = [];
  reward_token = "0xd";
  sample_height = 0;
  save_db = true;
  dry_run = false;
  archive_mode = false;
  weight_is_percentage = false;
  scaling_denominator = none;
}

abbrev results : List Sent
results = (stat, some 5) ∷ (stat, none) ∷ []

some_injective : {A : Type 0} {a b : A} → some a ≡ some b → a ≡ b
some_injective {a} e = ap (λ o. elim o [ none ↦ a | some c ↦ c ]) e

seven : (n : ℤ) → some (pos 7) ≡ some n → some (pos 7) ≡ some n
seven n e = e

stat-ReadsBack : ReadsBack ex (stat, some 5) × ReadsBack ex (stat, none)
unfolding output_row
stat-ReadsBack = (
  record {
    split_row = refl;
    no_comment = refl;
    is_address = refl;
    same_address = refl;
    same_reward = seven;
    same_share = seven;
    same_number = refl;
  },
  record {
    split_row = refl;
    no_comment = refl;
    is_address = refl;
    same_address = refl;
    same_reward = seven;
    same_share = seven;
    same_number = refl;
  },
)

stat-IsPayable : (tx_hash : Option ℕ) → IsPayable ex (stat, tx_hash)
unfolding is_excluded_reward_account is_configed_exchange get_exchange_pairs is_in_all_exchanges
stat-IsPayable tx_hash = record { units = 6; rewarded = refl; included = refl; small = omega arith }

get_accounts_and_rewards_from_file-written_example :
    get_accounts_and_rewards_from_file ex (some (written_lines ex opt 9 "0xe" results))
    ≡ has_read (map reread results, "")
get_accounts_and_rewards_from_file-written_example =
    get_accounts_and_rewards_from_file-written ex opt 9 "0xe" results
      (stat-ReadsBack.0, (stat-ReadsBack.1, tt))
      (stat-IsPayable (some 5), (stat-IsPayable none, tt))

abbrev flags : ImportFlags
flags = record {
  reward_type = volume;
  dry_run = false;
  exchange = "0xe";
  reward_token = "0xd";
  start_height = 0;
  end_height = 6600;
}

stat-ComesBack : ComesBack sample stat (some 5)
unfolding output_row
stat-ComesBack = record {
  split_row = refl;
  is_address = refl;
  same_address = refl;
  same_reward = seven;
  same_share = seven;
  some_share = λ n e. refl;
  same_number = refl;
  some_number = refl;
  same_hash = λ h e. some_injective e;
  some_hash = λ h e. refl;
}

flags-Matches : Matches sample opt "0xe" flags
flags-Matches = record {
  saved = refl;
  wet = refl;
  same_kind = refl;
  same_exchange = refl;
  same_token = refl;
  same_start = refl;
  same_end = refl;
}

process_line-written_example :
    let written = write_send_reward_result sample [] opt 9 "0xe" stat (some 5) in
    process_line sample [] flags 9 written.0 true ≡ has_read written.1
process_line-written_example =
    process_line-written sample [] opt "0xe" flags 9 stat (some 5) (pos 7) stat-ComesBack
      flags-Matches refl (omega arith)

-- A comment, two results and a line that is no result.
abbrev file : List String
file = "# results" ∷ "0x1,7,7,7" ∷ "" ∷ "0x1,7,7,7,0xh" ∷ []

abbrev names_file : List String
names_file = "0x2" ∷ "// twice" ∷ "0x1" ∷ "0x2" ∷ []

get_accounts_from_file-Distinct_example :
    Distinct (2 ∷ 1 ∷ []) × ((a : ℕ) → contains a (2 ∷ 1 ∷ []) ≡ any_names ex a names_file)
unfolding get_accounts_from_file account_lines account_line is_excluded_reward_account
    is_configed_exchange get_exchange_pairs is_in_all_exchanges
get_accounts_from_file-Distinct_example =
    get_accounts_from_file-Distinct ex names_file (2 ∷ 1 ∷ []) refl
