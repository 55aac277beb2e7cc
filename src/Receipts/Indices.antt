-- ===== src/Receipts/Indices.antt =====
-- The receipts and the volume records of a transaction have log indices that rise.
use anytoken_distribution.Base.{
  append_nil, ℕ, ◌≡◌, ap, ◌∙◌, ◌⊎◌, inl, inr, refl, String, List, [], ◌∷◌, ◌++◌, map, arith,
  Bool-cases,
}
use anytoken_distribution.Worker.Daily.{get_day_begin}
use anytoken_distribution.Receipts.Topics.{
  Topic, add_liquidity, remove_liquidity, token_purchase, eth_purchase, transfer, approval,
  create_exchange, mint, burn, swap, other,
}
use anytoken_distribution.Receipts.Records.{
  Erc20Receipt, ExchangeReceipt, Write, add_account, add_token_account, add_volume_history,
  update_volume, Env, State,
}
use anytoken_distribution.Receipts.Record.{
  record_accounts, record_exchange_account, is_exchange_token, record_token_accounts,
  record_account_volumes, update_volumes, volume_history,
}
use anytoken_distribution.Receipts.Parse.{
  append_exchange, record_buyer, record_receiver, keep_exchange_receipt,
}
use anytoken_distribution.Receipts.Counts.{keep_exchange_receipt-mt}

abbrev pub receipt_indices : State → List ℕ
receipt_indices s = map (λ ex. ex.log_index) s.mt.exchange_receipts

abbrev pub erc20_indices : State → List ℕ
erc20_indices s = map (λ r. r.log_index) s.mt.erc20_receipts

abbrev pub v2_indices : State → List ℕ
v2_indices s = map (λ r. r.log_index) s.mt.exchange_v2_receipts

abbrev pub history_indices : List Write → List ℕ
history_indices [] = []
history_indices (add_volume_history mv ∷ writes) = mv.log_index ∷ history_indices writes
history_indices (add_account _ ∷ writes) = history_indices writes
history_indices (add_token_account _ ∷ writes) = history_indices writes
history_indices (update_volume _ _ _ _ ∷ writes) = history_indices writes

history-append :
    (ws : List Write) (w : Write)
    → history_indices (ws ++ w ∷ []) ≡ history_indices ws ++ history_indices (w ∷ [])
history-append [] w = refl
history-append (add_volume_history mv ∷ ws) w =
    ap (λ rest. mv.log_index ∷ rest) (history-append ws w)
history-append (add_account _ ∷ ws) w = history-append ws w
history-append (add_token_account _ ∷ ws) w = history-append ws w
history-append (update_volume _ _ _ _ ∷ ws) w = history-append ws w

-- The volume records of a state.
abbrev pub histories : State → List ℕ
histories s = history_indices s.writes

record_accounts-histories :
    (env : Env) (exchange pairs account : String) (s : State)
    → histories (record_accounts env exchange pairs account s) ≡ histories s
unfolding record_accounts
record_accounts-histories env exchange pairs account s =
    history-append s.writes (add_account _) ∙ append_nil (histories s)

record_exchange_account-histories :
    (env : Env) (token account : String) (s : State)
    → histories (record_exchange_account env token account s) ≡ histories s
unfolding record_exchange_account
record_exchange_account-histories env token account s =
    elim (Bool-cases (is_exchange_token env token s)) [
      | inl e ↦ rw (e, record_exchange_account) (record_accounts-histories env token _ account s)
      | inr e ↦ rw (e, record_exchange_account) refl
    ]

record_token_accounts-histories :
    (env : Env) (token account : String) (s : State)
    → histories (record_token_accounts env token account s) ≡ histories s
unfolding record_token_accounts
record_token_accounts-histories env token account s =
    let before = record_exchange_account-histories env token account s in
    let s' = record_exchange_account env token account s in
    elim (Bool-cases env.record_token_account) [
      | inl e ↦
          rw (e, record_token_accounts)
            (history-append s'.writes (add_token_account _) ∙ append_nil (histories s') ∙ before)
      | inr e ↦ rw (e, record_token_accounts) before
    ]

update_volumes-histories :
    (env : Env) (ex : ExchangeReceipt) (topic : Topic) (s : State)
    → histories (update_volumes env ex topic s) ≡ histories s
unfolding update_volumes
update_volumes-histories env ex topic s =
    let added =
      history-append s.writes
        (update_volume ex s.mt.block_hash s.mt.block_number (get_day_begin s.mt.timestamp))
      ∙ append_nil (histories s) in
    ground (arith, added)

record_buyer-histories :
    (env : Env) (topic : Topic) (ex : ExchangeReceipt) (s : State)
    → histories (record_buyer env topic ex s) ≡ histories s
unfolding record_buyer
record_buyer-histories env token_purchase ex s = record_token_accounts-histories env _ ex.address s
record_buyer-histories env add_liquidity ex s = refl
record_buyer-histories env remove_liquidity ex s = refl
record_buyer-histories env eth_purchase ex s = refl
record_buyer-histories env transfer ex s = refl
record_buyer-histories env approval ex s = refl
record_buyer-histories env create_exchange ex s = refl
record_buyer-histories env mint ex s = refl
record_buyer-histories env burn ex s = refl
record_buyer-histories env swap ex s = refl
record_buyer-histories env other ex s = refl

pub record_receiver-histories :
    (env : Env) (topic : Topic) (r : Erc20Receipt) (s : State)
    → histories (record_receiver env topic r s) ≡ histories s
unfolding record_receiver
record_receiver-histories env transfer r s = record_token_accounts-histories env r.erc20 r.to s
record_receiver-histories env add_liquidity r s = refl
record_receiver-histories env remove_liquidity r s = refl
record_receiver-histories env token_purchase r s = refl
record_receiver-histories env eth_purchase r s = refl
record_receiver-histories env approval r s = refl
record_receiver-histories env create_exchange r s = refl
record_receiver-histories env mint r s = refl
record_receiver-histories env burn r s = refl
record_receiver-histories env swap r s = refl
record_receiver-histories env other r s = refl

-- The same list, or one with `i` at its end.
abbrev pub Extends : ℕ → List ℕ → List ℕ → Type 0
Extends i xs ys = (ys ≡ xs) ⊎ (ys ≡ xs ++ i ∷ [])

record_account_volumes-Extends :
    (env : Env) (ex : ExchangeReceipt) (topic : Topic) (s : State)
    → Extends ex.log_index (histories s) (histories (record_account_volumes env ex topic s))
unfolding record_account_volumes
record_account_volumes-Extends env ex topic s =
    let added = history-append s.writes (add_volume_history (volume_history s.mt topic ex)) in
    ground (arith, added)

Extends-same :
    (i : ℕ) (xs ys xs' ys' : List ℕ) → xs ≡ xs' → ys' ≡ ys → Extends i xs ys → Extends i xs' ys'
Extends-same i xs ys xs' ys' e e' (inl h) = inl (e' ∙ h ∙ e)
Extends-same i xs ys xs' ys' e e' (inr h) = inr (e' ∙ h ∙ ap (λ l. l ++ i ∷ []) e)

-- A handler of log `i` extends each list by `i` at most.
abbrev pub Adds : ℕ → State → State → Type 0
Adds i s s' =
    Extends i (receipt_indices s) (receipt_indices s')
    × Extends i (histories s) (histories s')
    × Extends i (erc20_indices s) (erc20_indices s')
    × Extends i (v2_indices s) (v2_indices s')

pub map-append :
    {A : Type 0} (f : A → ℕ) (xs : List A) (x : A) → map f (xs ++ x ∷ []) ≡ map f xs ++ f x ∷ []
map-append f [] x = refl
map-append f (y ∷ xs) x = ap (λ rest. f y ∷ rest) (map-append f xs x)

pub receipts_mt : (s s' : State) → s'.mt ≡ s.mt → receipt_indices s' ≡ receipt_indices s
receipts_mt s s' e = rw e refl

pub erc20_mt : (s s' : State) → s'.mt ≡ s.mt → erc20_indices s' ≡ erc20_indices s
erc20_mt s s' e = rw e refl

pub v2_mt : (s s' : State) → s'.mt ≡ s.mt → v2_indices s' ≡ v2_indices s
v2_mt s s' e = rw e refl

pub keep_exchange_receipt-Adds :
    (env : Env) (topic : Topic) (ex : ExchangeReceipt) (account : String) (s : State)
    → Adds ex.log_index s (keep_exchange_receipt env topic ex account s)
unfolding keep_exchange_receipt
keep_exchange_receipt-Adds env topic ex account s =
    let s1 = append_exchange ex (record_buyer env topic ex s) in
    let s2 = record_accounts env ex.exchange ex.pairs account s1 in
    let s3 = record_account_volumes env ex topic s2 in
    let before : histories s2 ≡ histories s =
      record_accounts-histories env ex.exchange ex.pairs account s1
      ∙ record_buyer-histories env topic ex s in
    (
      inr (
          receipts_mt (append_exchange ex s) (update_volumes env ex topic s3)
            (keep_exchange_receipt-mt env topic ex account s)
          ∙ map-append (λ (e : ExchangeReceipt). e.log_index) s.mt.exchange_receipts ex),
      Extends-same ex.log_index (histories s2) (histories s3) (histories s)
          (histories (update_volumes env ex topic s3)) before
          (update_volumes-histories env ex topic s3)
          (record_account_volumes-Extends env ex topic s2),
      inl (
          erc20_mt (append_exchange ex s) (update_volumes env ex topic s3)
            (keep_exchange_receipt-mt env topic ex account s)),
      inl (
          v2_mt (append_exchange ex s) (update_volumes env ex topic s3)
            (keep_exchange_receipt-mt env topic ex account s)),
    )
