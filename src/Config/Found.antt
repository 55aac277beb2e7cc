-- ===== src/Config/Found.antt =====
-- What the lookups find in a configuration that checkExchangeConfig has passed.
use text.Mathlib.Text.{◌==◌ as str_eq}
use text.Mathlib.TextEquality.{eq_iff}
use anytoken_distribution.Base.{
  String, ◌≡◌, ◌<◌, refl, none, List, [], ◌∷◌, map, All, Bool, true, false, Bool-cases, inl, inr,
  arith,
}
use anytoken_distribution.Library.{Library}
use anytoken_distribution.Config.Exchanges.{ExchangeConfig, Names, check_exchange_config}
use anytoken_distribution.Config.Unique.{Apart, check_exchange_config-IsValid}
use anytoken_distribution.Config.Lookups.{
  get_exchange_pairs, get_exchange_token, get_configed_exchange,
}

-- The functions that checkExchangeConfig calls.
abbrev pub names : Library → Names
names lib = record { is_hex_address = lib.is_hex_address; to_lower = lib.to_lower }

-- On hex addresses, which are ASCII, `strings.EqualFold` compares as `strings.ToLower` does.
abbrev pub Folds : Library → Type 0
Folds lib =
    (a b : String)
    → lib.is_hex_address a ≡ true
    → lib.is_hex_address b ≡ true
    → lib.equal_fold a b ≡ str_eq (lib.to_lower a) (lib.to_lower b)

-- The two addresses of an exchange, as checkExchangeConfig lets them pass.
abbrev pub HasAddresses : Library → ExchangeConfig → Type 0
HasAddresses lib ex =
    (lib.is_hex_address ex.exchange ≡ true)
    × (lib.is_hex_address ex.token ≡ true)
    × (0 < ex.creation_height)

-- The lookups find this exchange by its address and by its token.
abbrev pub IsFoundAs : Library → List ExchangeConfig → ExchangeConfig → Type 0
IsFoundAs lib exchanges ex =
    (get_exchange_pairs lib exchanges ex.exchange ≡ ex.pairs)
    × (get_exchange_token lib exchanges ex.exchange ≡ ex.token)
    × (get_configed_exchange lib exchanges ex.token ≡ ex.exchange)

module _ (lib : Library) (folds : Folds lib) where
  same_fold : (a : String) → lib.is_hex_address a ≡ true → lib.equal_fold a a ≡ true
  same_fold a h = rw (folds a a h h) ((eq_iff (lib.to_lower a) (lib.to_lower a)).1 refl)

  str_eq-sym : (a b : String) → str_eq a b ≡ false → str_eq b a ≡ false
  str_eq-sym a b e = elim (Bool-cases (str_eq b a)) [
    | inr c ↦ c
    | inl c ↦ ground (arith, eq_iff b a, eq_iff a b)
  ]

  -- An exchange that differs from all of `rest` in address and token does not hide them.
  IsFoundAs-later :
      (first : ExchangeConfig) (exchanges rest : List ExchangeConfig)
      → All
          (λ y. str_eq y (lib.to_lower first.exchange) ≡ false)
          (map (λ ex. lib.to_lower ex.exchange) rest)
      → All
          (λ y. str_eq y (lib.to_lower first.token) ≡ false)
          (map (λ ex. lib.to_lower ex.token) rest)
      → HasAddresses lib first
      → All (HasAddresses lib) rest
      → All (IsFoundAs lib exchanges) rest
      → All (IsFoundAs lib (first ∷ exchanges)) rest
  unfolding get_exchange_pairs get_exchange_token get_configed_exchange
  IsFoundAs-later first exchanges [] hx ht hex hexs all = tt
  IsFoundAs-later first exchanges (ex ∷ rest) (hx, hxs) (ht, hts) hex (hex', hexs) (here, all) =
      let other = str_eq-sym (lib.to_lower ex.exchange) (lib.to_lower first.exchange) hx in
      let token = str_eq-sym (lib.to_lower ex.token) (lib.to_lower first.token) ht in
      (
        (
          rw (folds first.exchange ex.exchange hex.0 hex'.0, other) here.0,
          rw (folds first.exchange ex.exchange hex.0 hex'.0, other) here.1,
          rw (folds first.token ex.token hex.1 hex'.1, token) here.2,
        ),
        IsFoundAs-later first exchanges rest hxs hts hex hexs all,
      )

  IsFoundAs-all :
      (exchanges : List ExchangeConfig)
      → Apart (map (λ ex. lib.to_lower ex.exchange) exchanges)
      → Apart (map (λ ex. lib.to_lower ex.token) exchanges)
      → All (HasAddresses lib) exchanges
      → All (IsFoundAs lib exchanges) exchanges
  unfolding get_exchange_pairs get_exchange_token get_configed_exchange
  IsFoundAs-all [] hx ht hexs = tt
  IsFoundAs-all (ex ∷ rest) (hx, hxs) (ht, hts) (hex, hexs) = (
    (
      rw (same_fold ex.exchange hex.0) refl,
      rw (same_fold ex.exchange hex.0) refl,
      rw (same_fold ex.token hex.1) refl,
    ),
    IsFoundAs-later ex rest rest hx ht hex hexs (IsFoundAs-all rest hxs hts hexs),
  )

  -- Once checkExchangeConfig has returned no error, GetExchangePairs, GetExchangeToken and
  -- GetConfigedExchange find each configured exchange by its own address and token, where
  -- strings.EqualFold compares hex addresses as strings.ToLower does.
  pub check_exchange_config-IsFoundAs :
      (is_percentage : Bool) (exchanges : List ExchangeConfig)
      → check_exchange_config (names lib) is_percentage exchanges ≡ none
      → All (IsFoundAs lib exchanges) exchanges
  check_exchange_config-IsFoundAs is_percentage exchanges e =
      let valid = check_exchange_config-IsValid (names lib) is_percentage exchanges e in
      IsFoundAs-all exchanges valid.apart_exchanges valid.apart_tokens valid.addresses
