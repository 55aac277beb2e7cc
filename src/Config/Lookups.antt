-- ===== src/Config/Lookups.antt =====
-- params/config.go: the lookups in the configured exchanges, factories and routers, and the tokens
-- and exchanges that the factories have. An absent entry is the empty string.
use text.Mathlib.Text.{◌==◌ as str_eq}
use anytoken_distribution.Base.{
  ℕ, String, List, [], ◌∷◌, map, Bool, true, false, ◌||◌, not, ◌==◌, ltb, contains, if◌then◌else◌,
  word, ◌-◌,
}
use anytoken_distribution.Library.{Library}
use anytoken_distribution.Config.Exchanges.{ExchangeConfig}

module _ (lib : Library) where
  unfoldable pub get_exchange_pairs : List ExchangeConfig → String → String
  get_exchange_pairs [] exchange = ""
  get_exchange_pairs (ex ∷ exchanges) exchange =
      let rest = get_exchange_pairs exchanges exchange in
      if lib.equal_fold ex.exchange exchange then ex.pairs else rest

  unfoldable pub get_exchange_token : List ExchangeConfig → String → String
  get_exchange_token [] exchange = ""
  get_exchange_token (ex ∷ exchanges) exchange =
      let rest = get_exchange_token exchanges exchange in
      if lib.equal_fold ex.exchange exchange then ex.token else rest

  unfoldable pub get_configed_exchange : List ExchangeConfig → String → String
  get_configed_exchange [] token = ""
  get_configed_exchange (ex ∷ exchanges) token =
      let rest = get_configed_exchange exchanges token in
      if lib.equal_fold ex.token token then ex.exchange else rest

  unfoldable pub is_configed_exchange : List ExchangeConfig → String → Bool
  unfolding get_exchange_pairs
  is_configed_exchange exchanges exchange = not (str_eq (get_exchange_pairs exchanges exchange) "")

  unfoldable pub is_configed_token : List ExchangeConfig → String → Bool
  unfolding get_configed_exchange
  is_configed_token exchanges token = not (str_eq (get_configed_exchange exchanges token) "")

  -- GetFactories and GetRouters, of the configured strings.
  abbrev pub addresses : List String → List ℕ
  addresses = map lib.hex_to_address

  unfoldable pub is_configed_factory : List String → ℕ → Bool
  is_configed_factory [] factory = false
  is_configed_factory (f ∷ factories) factory =
      let rest = is_configed_factory factories factory in
      if factory == lib.hex_to_address f then true else rest

  unfoldable pub is_configed_router : List String → String → Bool
  is_configed_router [] router = false
  is_configed_router (r ∷ routers) router =
      let rest = is_configed_router routers router in
      if lib.equal_fold (lib.address_string (lib.hex_to_address r)) router then true else rest

-- `math.MaxUint64` if there is no exchange.
unfoldable pub min_creation_height : ℕ → List ExchangeConfig → ℕ
min_creation_height min_height [] = min_height
min_creation_height min_height (ex ∷ exchanges) =
    min_creation_height
      (if ltb ex.creation_height min_height then ex.creation_height else min_height) exchanges

unfoldable pub get_min_exchange_creation_height : List ExchangeConfig → ℕ
unfolding min_creation_height
get_min_exchange_creation_height = min_creation_height (word - 1)

-- AllTokens and AllExchanges: the keys of the maps.
pub record AllPairs : Type 0 where
  pub all_tokens : List ℕ
  pub all_exchanges : List ℕ

unfoldable pub add_token_and_exchange : (token exchange : ℕ) → AllPairs → AllPairs
add_token_and_exchange token exchange all = if token == 0 || exchange == 0 then all else record {
  all_tokens = token ∷ all.all_tokens;
  all_exchanges = exchange ∷ all.all_exchanges;
}

unfoldable pub is_in_all_exchanges : AllPairs → ℕ → Bool
is_in_all_exchanges all exchange = contains exchange all.all_exchanges

unfoldable pub is_in_all_tokens : AllPairs → ℕ → Bool
is_in_all_tokens all token = contains token all.all_tokens

unfoldable pub is_in_all_token_and_exchanges : AllPairs → ℕ → Bool
unfolding is_in_all_tokens is_in_all_exchanges
is_in_all_token_and_exchanges all address =
    is_in_all_tokens all address || is_in_all_exchanges all address

unfoldable pub is_excluded_reward_account :
    Library → List ExchangeConfig → AllPairs → (account : ℕ) → Bool
unfolding is_configed_exchange is_in_all_exchanges
is_excluded_reward_account lib exchanges all account =
    if account == 0
    then true
    else if is_configed_exchange lib exchanges (lib.address_string account)
    then true
    else is_in_all_exchanges all account
