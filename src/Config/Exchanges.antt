-- ===== src/Config/Exchanges.antt =====
-- params/checkconfig.go, checkExchangeConfig: the configured exchanges.
use text.Mathlib.Text.{◌==◌ as str_eq}
use anytoken_distribution.Base.{
  ℕ, String, Option, none, some, List, [], ◌∷◌, Bool, true, false, ◌||◌, not, ◌==◌, if◌then◌else◌,
  add64,
}

-- The fields of ExchangeConfig that the checks read.
pub record ExchangeConfig : Type 0 where
  pub pairs : String
  pub exchange : String
  pub token : String
  pub creation_height : ℕ
  pub trade_weight : ℕ

pub data ConfigError : Type 0 where
  wrong_exchange empty_pairs wrong_token wrong_creation_height : ConfigError
  duplicate_pairs duplicate_exchange duplicate_token wrong_trade_weight : ConfigError

-- `common.IsHexAddress` and `strings.ToLower`.
pub record Names : Type 0 where
  pub is_hex_address : String → Bool
  pub to_lower : String → String

-- The keys of a map.
unfoldable pub has_key : String → List String → Bool
has_key key [] = false
has_key key (k ∷ keys) = if str_eq key k then true else has_key key keys

-- ExchangeConfig.check; `none` is the nil error.
unfoldable pub check : Names → ExchangeConfig → Option ConfigError
check names ex =
    if not (names.is_hex_address ex.exchange)
    then some wrong_exchange
    else if str_eq ex.pairs ""
    then some empty_pairs
    else if not (names.is_hex_address ex.token)
    then some wrong_token
    else if ex.creation_height == 0
    then some wrong_creation_height
    else none

-- The maps and the sum that the loop keeps.
pub record Seen : Type 0 where
  pub pairs_map : List String
  pub exchange_map : List String
  pub token_map : List String
  pub sum_trade_weight : ℕ

-- The tests of one round.
unfoldable pub check_seen : Names → Seen → ExchangeConfig → Option ConfigError
unfolding has_key check
check_seen names seen ex = elim (check names ex) [
  | some e ↦ some e
  | none ↦
      if has_key (names.to_lower ex.pairs) seen.pairs_map
      then some duplicate_pairs
      else if has_key (names.to_lower ex.exchange) seen.exchange_map
      then some duplicate_exchange
      else if has_key (names.to_lower ex.token) seen.token_map
      then some duplicate_token
      else none
]

abbrev pub see : Names → Seen → ExchangeConfig → Seen
see names seen ex = record {
  pairs_map = names.to_lower ex.pairs ∷ seen.pairs_map;
  exchange_map = names.to_lower ex.exchange ∷ seen.exchange_map;
  token_map = names.to_lower ex.token ∷ seen.token_map;
  sum_trade_weight = add64 seen.sum_trade_weight ex.trade_weight;
}

-- What follows the loop.
unfoldable pub check_trade_weight : Bool → ℕ → Option ConfigError
check_trade_weight is_percentage sum =
    if is_percentage
    then (if sum == 100 || sum == 0 then none else some wrong_trade_weight)
    else none

unfoldable pub check_exchanges_from : Names → Bool → Seen → List ExchangeConfig → Option ConfigError
unfolding check_seen check_trade_weight
check_exchanges_from names is_percentage seen [] =
    check_trade_weight is_percentage seen.sum_trade_weight
check_exchanges_from names is_percentage seen (ex ∷ exchanges) = elim (check_seen names seen ex) [
  | some e ↦ some e
  | none ↦ check_exchanges_from names is_percentage (see names seen ex) exchanges
]

unfoldable pub check_exchange_config : Names → Bool → List ExchangeConfig → Option ConfigError
unfolding check_exchanges_from
check_exchange_config names is_percentage exchanges =
    check_exchanges_from names is_percentage
      (record { pairs_map = []; exchange_map = []; token_map = []; sum_trade_weight = 0 }) exchanges
