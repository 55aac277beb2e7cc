-- ===== src/Database/Added.antt =====
-- Adding a result: what is found afterwards, and that adding it again changes nothing.
use mathlib.Core.Option
use text.Mathlib.Text.{◌==◌ as str_eq}
use text.Mathlib.TextPositions.{eq_refl}
use text.Mathlib.TextEquality.{eq_iff}
use anytoken_distribution.Base.{
  ℕ, arith, String, ◌≡◌, refl, sym, ap, ◌∙◌, Option, none, some, List, [], ◌∷◌, ◌++◌, false,
  Bool-cases, ◌⊎◌, inl, inr, zero, suc, ◌<◌,
}
use anytoken_distribution.Files.Rows.{MgoVolumeRewardResult}
use anytoken_distribution.Database.Store.{find_id, update_id, put_result}
use anytoken_distribution.Database.Results.{
  set_text, set_number, update_volume_reward, add_volume_reward_result,
}

none-some : {R : Type 0} (r : R) → none ≡ some r → ⊥
none-some r e = cc

module _ {R : Type 0} (change : R → R) where
  -- The record that is there after a result was put.
  abbrev pub changed : Option R → R → R
  changed none new = new
  changed (some old) new = change old

  pub find-append :
      (key : String) (new : R) (store : List (String × R))
      → find_id key store ≡ none
      → find_id key (store ++ (key, new) ∷ []) ≡ some new
  unfolding find_id
  find-append key new [] e = rw (eq_refl key) refl
  find-append key new ((k, r) ∷ store) e = elim (Bool-cases (str_eq k key)) [
    | inl same ↦ absurd (none-some r (sym (rw same at e)))
    | inr other ↦ rw other (find-append key new store (rw other at e))
  ]

  pub find-update :
      (key : String) (old : R) (store : List (String × R))
      → find_id key store ≡ some old
      → find_id key (update_id key change store) ≡ some (change old)
  unfolding find_id update_id
  find-update key old [] e = cc
  find-update key old ((k, r) ∷ store) e = elim (Bool-cases (str_eq k key)) [
    | inl same ↦ rw (same, same) (ap (Option.map change) (rw same at e))
    | inr other ↦ rw (other, other) (find-update key old store (rw other at e))
  ]

  pub other-append :
      (key other : String) (new : R) (store : List (String × R))
      → str_eq key other ≡ false
      → find_id other (store ++ (key, new) ∷ []) ≡ find_id other store
  unfolding find_id
  other-append key other new [] e = rw e refl
  other-append key other new ((k, r) ∷ store) e = elim (Bool-cases (str_eq k other)) [
    | inl same ↦ rw same refl
    | inr apart ↦ rw apart (other-append key other new store e)
  ]

  pub other-update :
      (key other : String) (store : List (String × R))
      → str_eq key other ≡ false
      → find_id other (update_id key change store) ≡ find_id other store
  unfolding find_id update_id
  other-update key other [] e = refl
  other-update key other ((k, r) ∷ store) e = elim (Bool-cases (str_eq k key)) [
    | inl same ↦
        let apart : str_eq k other ≡ false = ap (λ t. str_eq t other) ((eq_iff k key).0 same) ∙ e in
        rw (same, apart) refl
    | inr differs ↦ elim (Bool-cases (str_eq k other)) [
      | inl same ↦ rw (differs, same) refl
      | inr apart ↦ rw (differs, apart) (other-update key other store e)
    ]
  ]

  update-fixed :
      (key : String) (r : R) (store : List (String × R))
      → find_id key store ≡ some r
      → change r ≡ r
      → update_id key change store ≡ store
  unfolding find_id update_id
  update-fixed key r [] e fixed = refl
  update-fixed key r ((k, q) ∷ store) e fixed = elim (Bool-cases (str_eq k key)) [
    | inl same ↦
        let first : q ≡ r = ap (λ o. elim o [ none ↦ r | some c ↦ c ]) (rw same at e) in
        rw same (ap (λ x. (k, x) ∷ store) (ap change first ∙ fixed ∙ sym first))
    | inr differs ↦
        rw differs (ap (λ rest. (k, q) ∷ rest) (update-fixed key r store (rw differs at e) fixed))
  ]

  -- What putting a result does: the key has the new record or the changed one, the other keys have
  -- what they had, and to put it again does nothing.
  abbrev pub Puts : String → R → List (String × R) → List (String × R) → Type 0
  Puts key new store store' =
      (find_id key store' ≡ some (changed (find_id key store) new))
      × ((other : String) → str_eq key other ≡ false → find_id other store' ≡ find_id other store)
      × (put_result (find_id key store') key new change store' ≡ store')

  put_result-Puts :
      (key : String) (new : R) (store : List (String × R)) (found : Option R)
      → find_id key store ≡ found
      → change new ≡ new
      → ((old : R) → change (change old) ≡ change old)
      → Puts key new store (put_result found key new change store)
  put_result-Puts key new store none e fixed twice =
      let stored = find-append key new store e in
      (
        rw e stored,
        λ other apart. other-append key other new store apart,
        rw stored (update-fixed key new (store ++ (key, new) ∷ []) stored fixed),
      )
  put_result-Puts key new store (some old) e fixed twice =
      let stored = find-update key old store e in
      (
        rw e stored,
        λ other apart. other-update key other store apart,
        rw stored (update-fixed key (change old) (update_id key change store) stored (twice old)),
      )

set_text_twice : (new old : String) → set_text new (set_text new old) ≡ set_text new old
set_text_twice new old = elim (Bool-cases (str_eq new "")) [ inl e ↦ rw e refl | inr e ↦ rw e refl ]

set_text_same : (new : String) → set_text new new ≡ new
set_text_same new = elim (Bool-cases (str_eq new "")) [ inl e ↦ rw e refl | inr e ↦ rw e refl ]

set_number_twice : (new old : ℕ) → set_number new (set_number new old) ≡ set_number new old
set_number_twice new old = ground arith

set_number_same : (new : ℕ) → set_number new new ≡ new
set_number_same new = ground arith

add_volume_reward_lem :
    (key : String) (mr : MgoVolumeRewardResult) (store : List (String × MgoVolumeRewardResult))
    → Puts (update_volume_reward mr) key mr store (add_volume_reward_result key mr store)
unfolding add_volume_reward_result update_volume_reward
add_volume_reward_lem key mr store =
    put_result-Puts (update_volume_reward mr) key mr store (find_id key store) refl
      (simp (set_text_same, set_number_same) refl)
      (λ old. simp (set_text_twice, set_number_twice) refl)

-- A text that is given, and else the old one; the same of a number.
abbrev pub IsText : (given old new : String) → Type 0
IsText given old new = ((given ≡ "") × (new ≡ old)) ⊎ ((str_eq given "" ≡ false) × (new ≡ given))

abbrev pub IsNumber : (given old new : ℕ) → Type 0
IsNumber given old new = ((given ≡ 0) × (new ≡ old)) ⊎ ((0 < given) × (new ≡ given))

IsText-set_text : (given old : String) → IsText given old (set_text given old)
IsText-set_text given old = elim (Bool-cases (str_eq given "")) [
  | inl e ↦ rw e (inl ((eq_iff given "").0 e, refl))
  | inr e ↦ rw e (inr (refl, refl))
]

IsNumber-set_number : (given old : ℕ) → IsNumber given old (set_number given old)
IsNumber-set_number zero old = inl (refl, refl)
IsNumber-set_number (suc n) old = inr (omega arith, ground arith)

-- The old record with what the result gives of reward, volume, count and transaction, and nothing
-- else changed.
pub record IsUpdated (mr old new : MgoVolumeRewardResult) : Type 0 where
  pub reward : IsText mr.reward old.reward new.reward
  pub volume : IsText mr.volume old.volume new.volume
  pub tx_count : IsNumber mr.tx_count old.tx_count new.tx_count
  pub reward_tx : IsText mr.reward_tx old.reward_tx new.reward_tx
  pub exchange : new.exchange ≡ old.exchange
  pub pairs : new.pairs ≡ old.pairs
  pub start : new.start ≡ old.start
  pub end : new.end ≡ old.end
  pub reward_token : new.reward_token ≡ old.reward_token
  pub account : new.account ≡ old.account
  pub timestamp : new.timestamp ≡ old.timestamp

update_volume_reward-IsUpdated :
    (mr old : MgoVolumeRewardResult) → IsUpdated mr old (update_volume_reward mr old)
unfolding update_volume_reward
update_volume_reward-IsUpdated mr old = record {
  reward = IsText-set_text mr.reward old.reward;
  volume = IsText-set_text mr.volume old.volume;
  tx_count = IsNumber-set_number mr.tx_count old.tx_count;
  reward_tx = IsText-set_text mr.reward_tx old.reward_tx;
  exchange = refl;
  pairs = refl;
  start = refl;
  end = refl;
  reward_token = refl;
  account = refl;
  timestamp = refl;
}

-- What adding a result leaves of a store.
pub record IsAdded (key : String) (mr : MgoVolumeRewardResult)
    (store store' : List (String × MgoVolumeRewardResult)) : Type 0 where
  pub inserted : find_id key store ≡ none → find_id key store' ≡ some mr
  pub updated :
      (old : MgoVolumeRewardResult)
      → find_id key store ≡ some old
      → (new : MgoVolumeRewardResult) × (find_id key store' ≡ some new) × IsUpdated mr old new
  pub others :
      (other : String) → str_eq key other ≡ false → find_id other store' ≡ find_id other store
  pub again : add_volume_reward_result key mr store' ≡ store'

-- AddVolumeRewardResult: a key without a record has the result afterwards; one with a record has
-- that record, with the reward, volume, transaction count and reward transaction of the result where
-- the result gives them (a text that is not empty, a count that is not 0), and all else as it was;
-- the other keys have what they had; and to add the result again changes nothing.
pub add_volume_reward_result-IsAdded :
    (key : String) (mr : MgoVolumeRewardResult) (store : List (String × MgoVolumeRewardResult))
    → IsAdded key mr store (add_volume_reward_result key mr store)
add_volume_reward_result-IsAdded key mr store =
    let (found, others, again) = add_volume_reward_lem key mr store in
    record {
      inserted = λ e. rw e at found;
      updated = λ old e.
          (update_volume_reward mr old, rw e at found, update_volume_reward-IsUpdated mr old);
      others = others;
      again = unfold add_volume_reward_result in again;
    }
