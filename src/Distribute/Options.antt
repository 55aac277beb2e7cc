-- ===== src/Distribute/Options.antt =====
-- distributer/option.go: the options of a distribution, and the checks before it starts.
use text.Mathlib.Text.{◌==◌ as str_eq}
use anytoken_distribution.Base.{
  ℕ, ◌%◌, String, Option, none, some, List, [], ◌∷◌, length, Bool, true, false, ◌&&◌, ◌||◌, not,
  leb, ◌==◌, if◌then◌else◌, add64, sub64,
}
use anytoken_distribution.Int.{ℤ, pos, ltb_ℤ}

-- The values of byWhat; `unset` is the empty string.
pub data ByWhat : Type 0 where
  unset by_liquid by_volume custom : ByWhat

abbrev pub is_custom : ByWhat → Bool
is_custom custom = true
is_custom _ = false

abbrev pub is_by_volume : ByWhat → Bool
is_by_volume by_volume = true
is_by_volume _ = false

abbrev pub is_by_liquid : ByWhat → Bool
is_by_liquid by_liquid = true
is_by_liquid _ = false

-- The fields of Option that the checks read.
pub record DistOption : Type 0 where
  pub by_what : ByWhat
  pub total_value : ℤ
  pub start_height : ℕ
  pub end_height : ℕ
  pub stable_height : ℕ
  pub step_count : ℕ
  pub step_reward : Option ℤ
  pub exchanges : List String
  pub weights : List ℕ
  pub reward_token : String
  pub sample_height : ℕ
  pub save_db : Bool
  pub dry_run : Bool
  pub archive_mode : Bool
  pub weight_is_percentage : Bool
  pub scaling_denominator : Option ℤ

pub data CheckError : Type 0 where
  empty_range no_exchanges empty_exchange not_configed empty_token wrong_token : CheckError
  zero_denominator weight_count zero_weight wrong_percentage wrong_step no_step_reward : CheckError
  low_balance low_latest no_sample : CheckError

-- What the checks take from the address library and from the configuration.
pub record Addresses : Type 0 where
  pub is_hex_address : String → Bool
  pub is_configed_exchange : String → Bool

-- Return the first error, or go on.
infixr 6 ◌or◌
abbrev pub ◌or◌ : Option CheckError → Option CheckError → Option CheckError
none or next = next
(some e) or next = some e

abbrev pub fails : Bool → CheckError → Option CheckError
fails test e = if test then some e else none

unfoldable pub check_exchanges : Addresses → Bool → List String → Option CheckError
check_exchanges addresses save_db [] = none
check_exchanges addresses save_db (exchange ∷ exchanges) =
    fails (str_eq exchange "") empty_exchange
    or fails (save_db && not (addresses.is_configed_exchange exchange)) not_configed
    or check_exchanges addresses save_db exchanges

abbrev pub is_zero : Option ℤ → Bool
is_zero none = false
is_zero (some (pos n)) = n == 0
is_zero (some _) = false

-- CheckBasic; `none` is the nil error.
unfoldable pub check_basic : Addresses → DistOption → Option CheckError
unfolding check_exchanges
check_basic addresses opt =
    let wrong = not (addresses.is_hex_address opt.reward_token) in
    if is_custom opt.by_what
    then fails (not (str_eq opt.reward_token "") && wrong) wrong_token
    else fails (leb opt.end_height opt.start_height) empty_range
      or fails (length opt.exchanges == 0) no_exchanges
      or check_exchanges addresses opt.save_db opt.exchanges
      or fails (str_eq opt.reward_token "") empty_token
      or fails wrong wrong_token
      or fails (is_zero opt.scaling_denominator) zero_denominator

unfoldable pub has_zero : List ℕ → Bool
has_zero [] = false
has_zero (w ∷ weights) = w == 0 || has_zero weights

-- `sumWeight`, which wraps.
unfoldable pub sum_weights : ℕ → List ℕ → ℕ
sum_weights acc [] = acc
sum_weights acc (w ∷ weights) = sum_weights (add64 acc w) weights

unfoldable pub check_weights : DistOption → Option CheckError
unfolding has_zero sum_weights
check_weights opt =
    if is_custom opt.by_what
    then none
    else fails (not (length opt.exchanges == length opt.weights)) weight_count
      or fails (has_zero opt.weights) zero_weight
      or fails (opt.weight_is_percentage && not (sum_weights 0 opt.weights == 100)) wrong_percentage

abbrev pub is_nil : Option ℤ → Bool
is_nil none = true
is_nil (some _) = false

unfoldable pub check_steps : DistOption → Option CheckError
check_steps opt =
    let cycle = sub64 opt.end_height opt.start_height in
    if opt.step_count == 0 || not (is_by_volume opt.by_what)
    then none
    else fails (not (cycle % opt.step_count == 0)) wrong_step
      or fails (is_nil opt.step_reward) no_step_reward

-- CheckSenderRewardTokenBalance, from the balance that the node at last answers with.
unfoldable pub check_sender_reward_token_balance : DistOption → ℤ → Option CheckError
check_sender_reward_token_balance opt balance =
    fails (str_eq opt.reward_token "") empty_token
    or fails (ltb_ℤ balance opt.total_value && not opt.dry_run) low_balance

-- CheckStable, from the node's latest block number or timestamp.
unfoldable pub check_stable : DistOption → ℕ → Option CheckError
check_stable opt latest =
    let no_sample_given =
      is_by_liquid opt.by_what && (opt.sample_height == 0 && opt.archive_mode) in
    if is_custom opt.by_what || leb (add64 opt.end_height opt.stable_height) latest
    then none
    else fails (not opt.dry_run) low_latest or fails no_sample_given no_sample

unfoldable pub check_and_init :
    Addresses → DistOption → (balance : ℤ) → (latest : ℕ) → Option CheckError
unfolding check_basic check_steps check_weights check_sender_reward_token_balance check_stable
check_and_init addresses opt balance latest =
    check_basic addresses opt
    or check_steps opt
    or check_weights opt
    or check_sender_reward_token_balance opt balance
    or check_stable opt latest
