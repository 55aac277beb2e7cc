-- ===== src/Files/Imported.antt =====
-- An import adds what all lines of a file say, or nothing.
use text.Mathlib.Text.{◌==◌ as str_eq}
use anytoken_distribution.Base.{
  ℕ, String, ◌≡◌, Option, none, some, List, [], ◌∷◌, Bool, true, false, if◌then◌else◌,
}
use anytoken_distribution.Int.{ℤ}
use anytoken_distribution.Library.{Library}
use anytoken_distribution.Config.Exchanges.{ExchangeConfig}
use anytoken_distribution.Files.Rows.{RewardResult}
use anytoken_distribution.Files.Lines.{has_read}
use anytoken_distribution.Files.Import.{ImportFlags, ImportParts, parts_of, result_of}

-- A text that may be empty, which gives no number, or else the decimal of one.
abbrev pub IsOptional : Library → String → Option ℤ → Type 0
IsOptional lib text none = text ≡ ""
IsOptional lib text (some n) = (str_eq text "" ≡ false) × (lib.set_decimal text ≡ some n)

-- A text that may be empty, or else is the hash as it is written.
abbrev pub IsOptionalHash : Library → String → Option ℕ → Type 0
IsOptionalHash lib text none = text ≡ ""
IsOptionalHash lib text (some h) =
    (str_eq text "" ≡ false) × (lib.hash_string h ≡ text) × (lib.hex_to_hash text ≡ h)

-- What the parts of a line say, and the record that is made of it.
pub record Says (lib : Library) (exchanges : List ExchangeConfig) (flags : ImportFlags) (now : ℕ)
    (parts : ImportParts) (r : RewardResult) : Type 0 where
  pub address : lib.is_hex_address parts.account_str ≡ true
  pub reward : ℤ
  pub rewarded : lib.set_decimal parts.reward_str ≡ some reward
  pub share : Option ℤ
  pub shared : IsOptional lib parts.share_str share
  pub number : Option ℤ
  pub numbered : IsOptional lib parts.number_str number
  pub tx_hash : Option ℕ
  pub hashed : IsOptionalHash lib parts.tx_hash_str tx_hash
  pub stored :
      r
      ≡ result_of lib exchanges flags.reward_type flags now
          (lib.hex_to_address parts.account_str)
          reward
          share
          number
          tx_hash

module _ (lib : Library) (exchanges : List ExchangeConfig) (flags : ImportFlags) (now : ℕ) where
  -- A line that splits into parts that say the record.
  abbrev pub Reads : String → RewardResult → Type 0
  Reads line r =
      (parts : ImportParts) × (parts_of (lib.split line) ≡ has_read parts)
      × Says lib exchanges flags now parts r

  -- The lines say the records, one each, in their order.
  abbrev pub AllReads : List String → List RewardResult → Type 0
  AllReads [] [] = Unit
  AllReads (line ∷ lines) (r ∷ results) = Reads line r × AllReads lines results
  AllReads _ _ = ⊥

  -- What processLine returns for a line that says a record.
  abbrev result_if : Bool → RewardResult → List RewardResult
  result_if add_to_db r = if add_to_db then r ∷ [] else []
