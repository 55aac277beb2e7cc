-- ===== src/Distribute/Checked.antt =====
-- What a distribution can rely on once checkAndInit has returned no error.
use text.Mathlib.Text.{◌==◌ as str_eq}
use anytoken_distribution.Base.{
  or_false, ℕ, ◌-◌, ◌%◌, ◌≤◌, ◌<◌, ◌≡◌, refl, String, Option, none, some, List, [], ◌∷◌, length,
  Bool, true, false, ◌&&◌, not, leb, ==_iff, sub64, ◌==◌, arith, word, All, ◌≡◌, add64,
}
use anytoken_distribution.Int.{ℤ, ◌≤ℤ◌, ltb_ℤ}
use anytoken_distribution.Distribute.Options.{
  DistOption, Addresses, CheckError, empty_exchange, not_configed, empty_range, no_exchanges,
  empty_token, wrong_token, zero_denominator, weight_count, zero_weight, wrong_percentage,
  low_balance, is_custom, is_zero, is_nil, is_by_volume, fails, ◌or◌, check_exchanges, check_basic,
  has_zero, sum_weights, check_weights, check_steps, check_sender_reward_token_balance,
  check_stable, check_and_init,
}

-- `opt` may be distributed, with this balance and latest block.
pub record IsChecked (addresses : Addresses) (opt : DistOption) (balance : ℤ) (latest : ℕ)
    : Type 0 where
  pub nonempty_range : opt.start_height < opt.end_height
  pub some_exchange : 0 < length opt.exchanges
  pub named : All (λ exchange. str_eq exchange "" ≡ false) opt.exchanges
  pub configed :
      opt.save_db ≡ true
      → All (λ exchange. addresses.is_configed_exchange exchange ≡ true) opt.exchanges
  pub token : addresses.is_hex_address opt.reward_token ≡ true
  pub denominator : is_zero opt.scaling_denominator ≡ false
  pub weighted : length opt.exchanges ≡ length opt.weights
  pub positive : All (λ w. 0 < w) opt.weights
  pub percentage : opt.weight_is_percentage ≡ true → sum_weights 0 opt.weights ≡ 100
  pub stepped :
      is_by_volume opt.by_what ≡ true
      → 0 < opt.step_count
      → ((opt.end_height - opt.start_height) % opt.step_count ≡ 0)
        × (is_nil opt.step_reward ≡ false)
  pub covered : opt.dry_run ≡ false → opt.total_value ≤ℤ balance
  pub settled : opt.dry_run ≡ false → add64 opt.end_height opt.stable_height ≤ latest

pub or_none : (a b : Option CheckError) → (a or b) ≡ none → (a ≡ none) × (b ≡ none)
or_none none b e = (refl, e)
or_none (some x) b e = cc

is_known : (save known : Bool) → (save && not known) ≡ false → save ≡ true → known ≡ true
is_known save true h s = refl
is_known false false h s = cc
is_known true false h s = cc

pos_of_ne : (n : ℕ) → (n == 0) ≡ false → 0 < n
pos_of_ne n h = ground arith

is_same : (a b : ℕ) → not (a == b) ≡ false → a ≡ b
is_same a b h = ground arith

not-false : (b : Bool) → not b ≡ false → b ≡ true
not-false true h = refl
not-false false h = cc

pub fails-none : (test : Bool) (e : CheckError) → fails test e ≡ none → test ≡ false
fails-none false e h = refl
fails-none true e h = cc

check_exchanges_lem :
    (addresses : Addresses) (save_db : Bool) (exchanges : List String)
    → check_exchanges addresses save_db exchanges ≡ none
    → All (λ exchange. str_eq exchange "" ≡ false) exchanges
      × (save_db ≡ true
          → All (λ exchange. addresses.is_configed_exchange exchange ≡ true) exchanges)
unfolding check_exchanges
check_exchanges_lem addresses save_db [] e = (tt, λ _. tt)
check_exchanges_lem addresses save_db (exchange ∷ exchanges) e =
    let rest = check_exchanges addresses save_db exchanges in
    let unknown = save_db && not (addresses.is_configed_exchange exchange) in
    let (a, b) =
      or_none (fails (str_eq exchange "") empty_exchange) (fails unknown not_configed or rest) e in
    let (c, d) = or_none (fails unknown not_configed) rest b in
    let (named, configed) = check_exchanges_lem addresses save_db exchanges d in
    (
      (fails-none _ empty_exchange a, named),
      λ s. (
        is_known save_db (addresses.is_configed_exchange exchange)
            (fails-none unknown not_configed c) s,
        configed s,
      ),
    )

has_zero_lem : (weights : List ℕ) → has_zero weights ≡ false → All (λ w. 0 < w) weights
unfolding has_zero
has_zero_lem [] e = tt
has_zero_lem (w ∷ weights) e =
    let (a, b) = or_false (w == 0) (has_zero weights) e in (pos_of_ne w a, has_zero_lem weights b)

-- What each check leaves, for a range by volume or by liquidity.
basic_lem :
    (addresses : Addresses) (opt : DistOption)
    → is_custom opt.by_what ≡ false
    → check_basic addresses opt ≡ none
    → (leb opt.end_height opt.start_height ≡ false)
      × ((length opt.exchanges == 0) ≡ false)
      × (check_exchanges addresses opt.save_db opt.exchanges ≡ none)
      × (not (addresses.is_hex_address opt.reward_token) ≡ false)
      × (is_zero opt.scaling_denominator ≡ false)
unfolding check_basic
basic_lem addresses opt range e =
    let wrong = not (addresses.is_hex_address opt.reward_token) in
    let denominator = fails (is_zero opt.scaling_denominator) zero_denominator in
    let token = fails wrong wrong_token or denominator in
    let empty = fails (str_eq opt.reward_token "") empty_token in
    let exchanges = check_exchanges addresses opt.save_db opt.exchanges in
    let no_exchange = fails (length opt.exchanges == 0) no_exchanges in
    let unordered = leb opt.end_height opt.start_height in
    let all : (fails unordered empty_range or no_exchange or exchanges or empty or token) ≡ none =
      cc in
    let (a, r) =
      or_none (fails unordered empty_range) (no_exchange or exchanges or empty or token) all in
    let (b, r2) = or_none no_exchange (exchanges or empty or token) r in
    let (c, r3) = or_none exchanges (empty or token) r2 in
    let (_, r4) = or_none empty token r3 in
    let (d, f) = or_none (fails wrong wrong_token) denominator r4 in
    (
      fails-none unordered empty_range a,
      fails-none (length opt.exchanges == 0) no_exchanges b,
      c,
      fails-none wrong wrong_token d,
      fails-none (is_zero opt.scaling_denominator) zero_denominator f,
    )

weights_lem :
    (opt : DistOption)
    → is_custom opt.by_what ≡ false
    → check_weights opt ≡ none
    → (length opt.exchanges ≡ length opt.weights)
      × All (λ w. 0 < w) opt.weights
      × (opt.weight_is_percentage ≡ true → sum_weights 0 opt.weights ≡ 100)
unfolding check_weights
weights_lem opt range e =
    let differs = not (length opt.exchanges == length opt.weights) in
    let zero_one = fails (has_zero opt.weights) zero_weight in
    let unfit = opt.weight_is_percentage && not (sum_weights 0 opt.weights == 100) in
    let all : (fails differs weight_count or zero_one or fails unfit wrong_percentage) ≡ none =
      cc in
    let (a, r) =
      or_none (fails differs weight_count) (zero_one or fails unfit wrong_percentage) all in
    let (b, c) = or_none zero_one (fails unfit wrong_percentage) r in
    (
      is_same (length opt.exchanges) (length opt.weights) (fails-none differs weight_count a),
      has_zero_lem opt.weights (fails-none (has_zero opt.weights) zero_weight b),
      λ on. (==_iff _ 100).0 (
          is_known opt.weight_is_percentage (sum_weights 0 opt.weights == 100)
            (fails-none unfit wrong_percentage c) on),
    )

steps_lem :
    (opt : DistOption)
    → opt.start_height < opt.end_height
    → opt.end_height < word
    → check_steps opt ≡ none
    → is_by_volume opt.by_what ≡ true
    → 0 < opt.step_count
    → ((opt.end_height - opt.start_height) % opt.step_count ≡ 0) × (is_nil opt.step_reward ≡ false)
unfolding check_steps
steps_lem opt lt small e by h =
    let span : sub64 opt.end_height opt.start_height ≡ opt.end_height - opt.start_height =
      omega arith in
    ground (arith, span)

pub balance_lem :
    (opt : DistOption) (balance : ℤ)
    → check_sender_reward_token_balance opt balance ≡ none
    → opt.dry_run ≡ false
    → opt.total_value ≤ℤ balance
unfolding check_sender_reward_token_balance
balance_lem opt balance e wet =
    let low = ltb_ℤ balance opt.total_value && not opt.dry_run in
    let (_, b) =
      or_none (fails (str_eq opt.reward_token "") empty_token) (fails low low_balance) e in
    let enough = fails-none low low_balance b in ground arith

stable_lem :
    (opt : DistOption) (latest : ℕ)
    → is_custom opt.by_what ≡ false
    → check_stable opt latest ≡ none
    → opt.dry_run ≡ false
    → add64 opt.end_height opt.stable_height ≤ latest
unfolding check_stable
stable_lem opt latest range e wet = ground arith

-- checkAndInit, for a distribution by volume or liquidity whose end is below 2^64, where it returns no
-- error: the range is not empty; there are exchanges, none is unnamed, and if the rewards are saved to
-- the database, all are configured; the reward token is a hex address, and the denominator is not 0;
-- there are as many weights as exchanges, all positive, and percentages add up to 100; by volume, with
-- a step count that is not 0, the range is a whole number of steps, which have a reward; and unless it
-- is a dry run, the sender has the total, and the latest block is past the end and the stable distance.
pub check_and_init-IsChecked :
    (addresses : Addresses) (opt : DistOption) (balance : ℤ) (latest : ℕ)
    → is_custom opt.by_what ≡ false
    → opt.end_height < word
    → check_and_init addresses opt balance latest ≡ none
    → IsChecked addresses opt balance latest
unfolding check_and_init
check_and_init-IsChecked addresses opt balance latest range small e =
    let stable = check_stable opt latest in
    let covered = check_sender_reward_token_balance opt balance in
    let weights = check_weights opt in
    let steps = check_steps opt in
    let (a, r) = or_none (check_basic addresses opt) (steps or weights or covered or stable) e in
    let (b, r2) = or_none steps (weights or covered or stable) r in
    let (c, r3) = or_none weights (covered or stable) r2 in
    let (d, f) = or_none covered stable r3 in
    let (ordered, some_exchange, exchanges, token, denominator) = basic_lem addresses opt range a in
    let (named, configed) = check_exchanges_lem addresses opt.save_db opt.exchanges exchanges in
    let (weighted, positive, percentage) = weights_lem opt range c in
    let nonempty : opt.start_height < opt.end_height = ground arith in
    record {
      nonempty_range = nonempty;
      some_exchange = pos_of_ne (length opt.exchanges) some_exchange;
      named = named;
      configed = configed;
      token = not-false (addresses.is_hex_address opt.reward_token) token;
      denominator = denominator;
      weighted = weighted;
      positive = positive;
      percentage = percentage;
      stepped = steps_lem opt nonempty small b;
      covered = balance_lem opt balance d;
      settled = stable_lem opt latest range f;
    }
