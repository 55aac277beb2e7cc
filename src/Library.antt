-- ===== src/Library.antt =====
-- Functions of Go's standard library and of the chain's SDK that the program calls: parameters of
-- the model. An address is a number; the zero address is 0.
pub mod Sample
use anytoken_distribution.Base.{ℕ, String, Option, List, Bool}
use anytoken_distribution.Int.{ℤ}

pub record Library : Type 0 where
  -- strings.ToLower, strings.EqualFold, strings.TrimSpace
  pub to_lower : String → String
  pub equal_fold : String → String → Bool
  pub trim_space : String → String
  -- common.IsHexAddress, common.HexToAddress, Address.String
  pub is_hex_address : String → Bool
  pub hex_to_address : String → ℕ
  pub address_string : ℕ → String
  -- common.BytesToAddress of a hash's bytes, and new(big.Int).SetBytes
  pub bytes_to_address : ℕ → ℕ
  pub set_bytes : List ℕ → ℤ
  -- new(big.Int).SetString(_, 0), and big.Int.String
  pub set_string : String → Option ℤ
  pub int_string : ℤ → String
  -- the split at blanks and commas, blankOrCommaSepRegexp.Split(_, -1)
  pub split : String → List String
  -- fmt.Sprintf("%d", _), new(big.Int).SetString(_, 10), common.HexToHash and Hash.Hex
  pub format_uint : ℕ → String
  pub set_decimal : String → Option ℤ
  pub hex_to_hash : String → ℕ
  pub hash_string : ℕ → String
