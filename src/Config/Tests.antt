-- ===== src/Config/Tests.antt =====
-- checkExchangeConfig at two exchanges.
use anytoken_distribution.Base.{◌≡◌, refl, some, [], ◌∷◌, true, All}
use anytoken_distribution.Config.Exchanges.{
  ExchangeConfig, duplicate_token, Names, has_key, check, check_seen, check_trade_weight,
  check_exchanges_from, check_exchange_config,
}
use anytoken_distribution.Library.Sample.{sample}
use anytoken_distribution.Config.Unique.{IsValid, check_exchange_config-IsValid}
use anytoken_distribution.Config.Found.{IsFoundAs, check_exchange_config-IsFoundAs}

abbrev names : Names
names = record { is_hex_address = λ s. true; to_lower = λ s. s }

abbrev any_exchange : ExchangeConfig
any_exchange = record {
  pairs = "ANY";
  exchange = "0x1";
  token = "0x2";
  creation_height = 5;
  trade_weight = 40;
}

abbrev btc_exchange : ExchangeConfig
btc_exchange = record {
  pairs = "BTC";
  exchange = "0x3";
  token = "0x4";
  creation_height = 6;
  trade_weight = 60;
}

same_token :
    check_exchange_config names true (any_exchange ∷ record btc_exchange { token = "0x2" } ∷ [])
    ≡ some duplicate_token
unfolding check_exchange_config check_exchanges_from check_seen check has_key check_trade_weight
same_token = refl

check_exchange_config-IsValid_example : IsValid names true (any_exchange ∷ btc_exchange ∷ [])
unfolding check_exchange_config check_exchanges_from check_seen check has_key check_trade_weight
check_exchange_config-IsValid_example =
    check_exchange_config-IsValid names true (any_exchange ∷ btc_exchange ∷ []) refl

check_exchange_config-IsFoundAs_example :
    All (IsFoundAs sample (any_exchange ∷ btc_exchange ∷ [])) (any_exchange ∷ btc_exchange ∷ [])
unfolding check_exchange_config check_exchanges_from check_seen check has_key check_trade_weight
check_exchange_config-IsFoundAs_example =
    check_exchange_config-IsFoundAs sample (λ a b h h'. refl) true
      (any_exchange ∷ btc_exchange ∷ []) refl
