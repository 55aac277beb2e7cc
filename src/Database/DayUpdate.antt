-- ===== src/Database/DayUpdate.antt =====
-- One call of UpdateVolumeWithReceipt: what it does to the volumes of a day.
use text.Mathlib.Text.{◌==◌ as str_eq}
use anytoken_distribution.Base.{
  ℕ, String, ◌≡◌, refl, none, some, List, [], ◌∷◌, true, false, Option-cases, inl, inr,
}
use anytoken_distribution.Int.{ℤ, pos, ◌+ℤ◌}
use anytoken_distribution.Outcome.{Outcome, returns, ◌>>=◌}
use anytoken_distribution.Library.{Library}
use anytoken_distribution.Receipts.Records.{ExchangeReceipt}
use anytoken_distribution.Database.Store.{find_id}
use anytoken_distribution.Database.Insert.{get_key_of_exchange_and_timestamp, upsert_id}
use anytoken_distribution.Database.Added.{find-append, find-update, other-append, other-update}
use anytoken_distribution.Database.Volume.{
  MgoVolume, Volumes, purchase_amounts, grown, volume_record, add_amounts,
  update_volume_with_receipt,
}

-- A receipt with its block, and the amounts that its texts name.
pub record Purchase : Type 0 where
  pub exr : ExchangeReceipt
  pub block_hash : String
  pub block_number : ℕ
  pub coins : ℤ
  pub tokens : ℤ

-- The calls for the purchases of a day, in their order; a purchase of another type is an error.
unfoldable pub update_day : Library → (timestamp : ℕ) → List Purchase → Volumes → Outcome Volumes
unfolding update_volume_with_receipt
update_day lib timestamp [] store = returns store
update_day lib timestamp (p ∷ purchases) store = do
  (fine, store') ← update_volume_with_receipt lib p.exr p.block_hash p.block_number timestamp store
  update_day lib timestamp purchases store'

abbrev pub coin_sum : List Purchase → ℤ
coin_sum [] = pos 0
coin_sum (p ∷ purchases) = p.coins +ℤ coin_sum purchases

abbrev pub token_sum : List Purchase → ℤ
token_sum [] = pos 0
token_sum (p ∷ purchases) = p.tokens +ℤ token_sum purchases

-- The purchases of an exchange, with amounts that can be read.
abbrev pub AreReadable : Library → String → List Purchase → Type 0
AreReadable lib exchange [] = Unit
AreReadable lib exchange (p ∷ purchases) =
    (p.exr.exchange ≡ exchange)
    × (purchase_amounts lib p.exr ≡ some (some p.coins, some p.tokens))
    × AreReadable lib exchange purchases

-- The volumes of a key are `coins` and `tokens`.
abbrev pub HasVolumes : Library → String → ℤ → ℤ → Volumes → Type 0
HasVolumes lib key coins tokens store =
    (v : MgoVolume) × (find_id key store ≡ some v)
    × (v.coin_volume24h ≡ lib.int_string coins)
    × (v.token_volume24h ≡ lib.int_string tokens)

find-upsert :
    (key : String) (v : MgoVolume) (store : Volumes) → find_id key (upsert_id key v store) ≡ some v
unfolding upsert_id
find-upsert key v store = elim (Option-cases (find_id key store)) [
  | inl e ↦ rw e (find-append (λ _. v) key v store e)
  | inr (old, e) ↦ rw e (find-update (λ _. v) key old store e)
]

other-upsert :
    (key other : String) (v : MgoVolume) (store : Volumes)
    → str_eq key other ≡ false
    → find_id other (upsert_id key v store) ≡ find_id other store
unfolding upsert_id
other-upsert key other v store apart = elim (Option-cases (find_id key store)) [
  | inl e ↦ rw e (other-append (λ _. v) key other v store apart)
  | inr (old, e) ↦ rw e (other-update (λ _. v) key other store apart)
]

-- The texts of the volumes before each purchase are read as they were written.
abbrev pub AllReadBack : Library → (coins tokens : ℤ) → List Purchase → Type 0
AllReadBack lib coins tokens [] = Unit
AllReadBack lib coins tokens (p ∷ purchases) =
    (lib.set_string (lib.int_string coins) ≡ some coins)
    × (lib.set_string (lib.int_string tokens) ≡ some tokens)
    × AllReadBack lib (p.coins +ℤ coins) (p.tokens +ℤ tokens) purchases

-- What one call does to the volumes of a key, and to all others.
abbrev pub Adds : Library → String → (coins tokens : ℤ) → Volumes → Volumes → Type 0
Adds lib key coins tokens store store' =
    HasVolumes lib key coins tokens store'
    × ((other : String) → str_eq key other ≡ false → find_id other store' ≡ find_id other store)

grown_old :
    (lib : Library) (amount old : ℤ) (text : String)
    → text ≡ lib.int_string old
    → lib.set_string (lib.int_string old) ≡ some old
    → grown lib (some amount) (some text) ≡ returns (lib.int_string (amount +ℤ old))
unfolding grown
grown_old lib amount old text e back = rw (e, back) refl

pub update_later :
    (lib : Library) (timestamp : ℕ) (p : Purchase) (key : String) (coins tokens : ℤ)
    (store : Volumes)
    → get_key_of_exchange_and_timestamp lib p.exr.exchange timestamp ≡ key
    → purchase_amounts lib p.exr ≡ some (some p.coins, some p.tokens)
    → lib.set_string (lib.int_string coins) ≡ some coins
    → lib.set_string (lib.int_string tokens) ≡ some tokens
    → HasVolumes lib key coins tokens store
    → (store' : Volumes) × (update_volume_with_receipt lib p.exr p.block_hash p.block_number
          timestamp store
        ≡ returns (true, store'))
      × Adds lib key (p.coins +ℤ coins) (p.tokens +ℤ tokens) store store'
unfolding update_volume_with_receipt add_amounts
update_later lib timestamp p key coins tokens store named amounts back_coins back_tokens
      (v, found, has_coins, has_tokens) =
    let new =
      volume_record p.exr p.block_hash p.block_number timestamp (lib.int_string (p.coins +ℤ coins))
        (lib.int_string (p.tokens +ℤ tokens)) in
    (
      upsert_id key new store,
      rw
          (
            amounts,
            named,
            found,
            grown_old lib p.coins coins v.coin_volume24h has_coins back_coins,
            grown_old lib p.tokens tokens v.token_volume24h has_tokens back_tokens,
          )
          refl,
      ((new, find-upsert key new store, refl, refl), λ other. other-upsert key other new store),
    )

pub update_first :
    (lib : Library) (timestamp : ℕ) (p : Purchase) (key : String) (store : Volumes)
    → get_key_of_exchange_and_timestamp lib p.exr.exchange timestamp ≡ key
    → purchase_amounts lib p.exr ≡ some (some p.coins, some p.tokens)
    → find_id key store ≡ none
    → (store' : Volumes) × (update_volume_with_receipt lib p.exr p.block_hash p.block_number
          timestamp store
        ≡ returns (true, store'))
      × Adds lib key p.coins p.tokens store store'
unfolding update_volume_with_receipt add_amounts grown
update_first lib timestamp p key store named amounts found =
    let new =
      volume_record p.exr p.block_hash p.block_number timestamp (lib.int_string p.coins)
        (lib.int_string p.tokens) in
    (
      upsert_id key new store,
      rw (amounts, named, found) refl,
      ((new, find-upsert key new store, refl, refl), λ other. other-upsert key other new store),
    )
