-- ===== src/Database/DailyVolume.antt =====
-- UpdateVolumeWithReceipt over the receipts of a day: the volumes add up.
use text.Mathlib.Text.{◌==◌ as str_eq}
use anytoken_distribution.Base.{ℕ, String, ◌≡◌, refl, ap, ◌∙◌, none, List, [], ◌∷◌, false}
use anytoken_distribution.Int.{ℤ, pos, ◌+ℤ◌, int_laws}
use anytoken_distribution.Outcome.{returns}
use anytoken_distribution.Library.{Library}
use anytoken_distribution.Database.Store.{find_id}
use anytoken_distribution.Database.Insert.{get_key_of_exchange_and_timestamp}
use anytoken_distribution.Database.DayUpdate.{
  Purchase, update_day, coin_sum, token_sum, AreReadable, AllReadBack, HasVolumes, Adds,
  update_later, update_first,
}
use anytoken_distribution.Database.Volume.{Volumes}

update_day-later :
    (lib : Library) (timestamp : ℕ) (exchange : String) (purchases : List Purchase)
    (coins tokens : ℤ) (store : Volumes)
    → let key = get_key_of_exchange_and_timestamp lib exchange timestamp in
      AreReadable lib exchange purchases
      → AllReadBack lib coins tokens purchases
      → HasVolumes lib key coins tokens store
      → (store' : Volumes) × (update_day lib timestamp purchases store ≡ returns store')
        × Adds lib key (coin_sum purchases +ℤ coins) (token_sum purchases +ℤ tokens) store store'
unfolding update_day
update_day-later lib timestamp exchange [] coins tokens store readable back (v, found, cs, ts) =
    let zero_coins : coins ≡ pos 0 +ℤ coins = omega int_laws in
    let zero_tokens : tokens ≡ pos 0 +ℤ tokens = omega int_laws in
    (
      store,
      refl,
      (
        (v, found, cs ∙ ap lib.int_string zero_coins, ts ∙ ap lib.int_string zero_tokens),
        λ _ _. refl,
      ),
    )
update_day-later lib timestamp exchange (p ∷ purchases) coins tokens store
      (named, amounts, readable) (back_coins, back_tokens, back) has =
    let key = get_key_of_exchange_and_timestamp lib exchange timestamp in
    let (store1, run, (has1, others1)) =
      update_later lib timestamp p key coins tokens store
        (ap (λ x. get_key_of_exchange_and_timestamp lib x timestamp) named) amounts back_coins
        back_tokens has in
    let (store2, runs, ((v, found, cs, ts), others2)) =
      update_day-later lib timestamp exchange purchases (p.coins +ℤ coins) (p.tokens +ℤ tokens)
        store1 readable back has1 in
    let coins_same : coin_sum purchases +ℤ (p.coins +ℤ coins)
        ≡ p.coins +ℤ coin_sum purchases +ℤ coins =
      omega int_laws in
    let tokens_same : token_sum purchases +ℤ (p.tokens +ℤ tokens)
        ≡ p.tokens +ℤ token_sum purchases +ℤ tokens =
      omega int_laws in
    (
      store2,
      rw (run, runs) refl,
      (
        (v, found, cs ∙ ap lib.int_string coins_same, ts ∙ ap lib.int_string tokens_same),
        λ other apart. others2 other apart ∙ others1 other apart,
      ),
    )

-- UpdateVolumeWithReceipt for the purchases of an exchange in a day, at least one, whose amounts can
-- be read, into volumes that have none of that day, where the library reads the volumes as it wrote
-- them: it returns; the volumes of coins and of tokens that are then stored are the sums over the
-- purchases; and no other record changes. A purchase that is given twice counts twice.
pub update_day-HasVolumes :
    (lib : Library) (timestamp : ℕ) (exchange : String) (p : Purchase) (purchases : List Purchase)
    (store : Volumes)
    → let key = get_key_of_exchange_and_timestamp lib exchange timestamp in
      AreReadable lib exchange (p ∷ purchases)
      → AllReadBack lib p.coins p.tokens purchases
      → find_id key store ≡ none
      → (store' : Volumes) × (update_day lib timestamp (p ∷ purchases) store ≡ returns store')
        × HasVolumes lib key (coin_sum (p ∷ purchases)) (token_sum (p ∷ purchases)) store'
        × ((other : String) → str_eq key other ≡ false → find_id other store' ≡ find_id other store)
unfolding update_day
update_day-HasVolumes lib timestamp exchange p purchases store (named, amounts, readable) back
      found =
    let key = get_key_of_exchange_and_timestamp lib exchange timestamp in
    let (store1, run, (has1, others1)) =
      update_first lib timestamp p key store
        (ap (λ x. get_key_of_exchange_and_timestamp lib x timestamp) named) amounts found in
    let (store2, runs, ((v, found2, cs, ts), others2)) =
      update_day-later lib timestamp exchange purchases p.coins p.tokens store1 readable back
        has1 in
    let coins_same : coin_sum purchases +ℤ p.coins ≡ p.coins +ℤ coin_sum purchases =
      omega int_laws in
    let tokens_same : token_sum purchases +ℤ p.tokens ≡ p.tokens +ℤ token_sum purchases =
      omega int_laws in
    (
      store2,
      rw (run, runs) refl,
      (v, found2, cs ∙ ap lib.int_string coins_same, ts ∙ ap lib.int_string tokens_same),
      λ other apart. others2 other apart ∙ others1 other apart,
    )
