-- ===== src/Config/Unique.antt =====
-- What checkExchangeConfig lets pass: no pairs, exchange or token twice, and weights of 100 percent.
use text.Mathlib.Text.{◌==◌ as str_eq}
use anytoken_distribution.Base.{
  ℕ, ◌<◌, ◌≡◌, ◌⊎◌, refl, String, Option, none, some, List, [], ◌∷◌, map, All, Bool, true, false,
  add64, arith,
}
use anytoken_distribution.Config.Exchanges.{
  ExchangeConfig, ConfigError, Names, Seen, has_key, check, check_seen, see, check_trade_weight,
  check_exchanges_from, check_exchange_config,
}

-- Each string differs from all after it.
abbrev pub Apart : List String → Type 0
Apart [] = Unit
Apart (x ∷ xs) = All (λ y. str_eq y x ≡ false) xs × Apart xs

abbrev pub total_weight : ℕ → List ExchangeConfig → ℕ
total_weight acc [] = acc
total_weight acc (ex ∷ exchanges) = total_weight (add64 acc ex.trade_weight) exchanges

pub record IsValid (names : Names) (is_percentage : Bool) (exchanges : List ExchangeConfig)
    : Type 0 where
  pub addresses :
      All
        (λ ex.
          (names.is_hex_address ex.exchange ≡ true)
          × (names.is_hex_address ex.token ≡ true)
          × (0 < ex.creation_height))
        exchanges
  pub apart_pairs : Apart (map (λ ex. names.to_lower ex.pairs) exchanges)
  pub apart_exchanges : Apart (map (λ ex. names.to_lower ex.exchange) exchanges)
  pub apart_tokens : Apart (map (λ ex. names.to_lower ex.token) exchanges)
  pub weights :
      is_percentage ≡ true → (total_weight 0 exchanges ≡ 100) ⊎ (total_weight 0 exchanges ≡ 0)

check-none :
    (names : Names) (ex : ExchangeConfig)
    → check names ex ≡ none
    → (names.is_hex_address ex.exchange ≡ true)
      × (names.is_hex_address ex.token ≡ true)
      × (0 < ex.creation_height)
unfolding check
check-none names ex e = ground arith

check_seen-none :
    (names : Names) (seen : Seen) (ex : ExchangeConfig)
    → check_seen names seen ex ≡ none
    → (check names ex ≡ none)
      × (has_key (names.to_lower ex.pairs) seen.pairs_map ≡ false)
      × (has_key (names.to_lower ex.exchange) seen.exchange_map ≡ false)
      × (has_key (names.to_lower ex.token) seen.token_map ≡ false)
unfolding check_seen
check_seen-none names seen ex e = ground arith

has_key-cons :
    (y k : String) (keys : List String)
    → has_key y (k ∷ keys) ≡ false
    → (str_eq y k ≡ false) × (has_key y keys ≡ false)
unfolding has_key
has_key-cons y k keys e = ground arith

-- Strings that are apart, and not among the keys.
abbrev AreNew : List String → List String → Type 0
AreNew keys xs = Apart xs × All (λ x. has_key x keys ≡ false) xs

unseen_cons :
    (k : String) (keys xs : List String)
    → All (λ x. has_key x (k ∷ keys) ≡ false) xs
    → All (λ x. str_eq x k ≡ false) xs × All (λ x. has_key x keys ≡ false) xs
unseen_cons k keys [] all = (tt, tt)
unseen_cons k keys (x ∷ xs) (here, all) =
    let (other, unseen) = has_key-cons x k keys here in
    let (others, rest) = unseen_cons k keys xs all in ((other, others), (unseen, rest))

AreNew-cons :
    (k : String) (keys xs : List String)
    → has_key k keys ≡ false
    → AreNew (k ∷ keys) xs
    → AreNew keys (k ∷ xs)
AreNew-cons k keys xs unseen (apart, all) =
    let (others, rest) = unseen_cons k keys xs all in ((others, apart), (unseen, rest))

weights_lem :
    (is_percentage : Bool) (sum : ℕ)
    → check_trade_weight is_percentage sum ≡ none
    → is_percentage ≡ true
    → (sum ≡ 100) ⊎ (sum ≡ 0)
unfolding check_trade_weight
weights_lem is_percentage sum e on = ground arith

no_some : {e : ConfigError} → some e ≡ none → ⊥
no_some h = cc

round_none :
    (test next : Option ConfigError)
    → (elim test [ some e ↦ some e | none ↦ next ]) ≡ none
    → (test ≡ none) × (next ≡ none)
round_none none next e = (refl, e)
round_none (some x) next e = absurd (no_some e)

check_exchanges_from_lem :
    (names : Names) (is_percentage : Bool) (seen : Seen) (exchanges : List ExchangeConfig)
    → check_exchanges_from names is_percentage seen exchanges ≡ none
    → All
        (λ ex.
          (names.is_hex_address ex.exchange ≡ true)
          × (names.is_hex_address ex.token ≡ true)
          × (0 < ex.creation_height))
        exchanges
      × AreNew seen.pairs_map (map (λ ex. names.to_lower ex.pairs) exchanges)
      × AreNew seen.exchange_map (map (λ ex. names.to_lower ex.exchange) exchanges)
      × AreNew seen.token_map (map (λ ex. names.to_lower ex.token) exchanges)
      × (is_percentage ≡ true
          → (total_weight seen.sum_trade_weight exchanges ≡ 100)
            ⊎ (total_weight seen.sum_trade_weight exchanges ≡ 0))
unfolding check_exchanges_from
check_exchanges_from_lem names is_percentage seen [] e =
    (tt, (tt, tt), (tt, tt), (tt, tt), weights_lem is_percentage seen.sum_trade_weight e)
check_exchanges_from_lem names is_percentage seen (ex ∷ exchanges) e =
    let (passed, later) = round_none (check_seen names seen ex) _ e in
    let (valid, pairs, exchange, token) = check_seen-none names seen ex passed in
    let (all, new_pairs, new_exchanges, new_tokens, weights) =
      check_exchanges_from_lem names is_percentage (see names seen ex) exchanges later in
    (
      (check-none names ex valid, all),
      AreNew-cons (names.to_lower ex.pairs) seen.pairs_map _ pairs new_pairs,
      AreNew-cons (names.to_lower ex.exchange) seen.exchange_map _ exchange new_exchanges,
      AreNew-cons (names.to_lower ex.token) seen.token_map _ token new_tokens,
      weights,
    )

-- checkExchangeConfig: if it returns no error, then each exchange has a hex address, a token with a
-- hex address and a creation height that is not zero, no two exchanges have the same pairs, address
-- or token in lower case, and trade weights in percent add up (in 64 bits) to 100 or to 0.
pub check_exchange_config-IsValid :
    (names : Names) (is_percentage : Bool) (exchanges : List ExchangeConfig)
    → check_exchange_config names is_percentage exchanges ≡ none
    → IsValid names is_percentage exchanges
unfolding check_exchange_config
check_exchange_config-IsValid names is_percentage exchanges e =
    let (all, pairs, exchange, token, weights) =
      check_exchanges_from_lem names is_percentage
        (record { pairs_map = []; exchange_map = []; token_map = []; sum_trade_weight = 0 })
        exchanges e in
    record {
      addresses = all;
      apart_pairs = pairs.0;
      apart_exchanges = exchange.0;
      apart_tokens = token.0;
      weights = weights;
    }
