-- ===== src/Receipts/Counts.antt =====
-- How many receipts the handlers of logs add to a transaction.
use anytoken_distribution.Base.{
  ℕ, suc, ◌+◌, ◌≡◌, subst, ◌∙◌, ◌⊎◌, inl, inr, refl, String, Option, none, some, List, [], ◌∷◌,
  ◌++◌, length, length-append, Bool, true, false, arith, Bool-cases,
}
use anytoken_distribution.Outcome.{returns, >>=-eq-returns, returns-injective}
use anytoken_distribution.Receipts.Topics.{
  Topic, add_liquidity, remove_liquidity, token_purchase, eth_purchase, transfer, approval,
  create_exchange, mint, burn, swap, other,
}
use anytoken_distribution.Receipts.Records.{
  Log, Erc20Receipt, ExchangeReceipt, ExchangeV2Receipt, Env, State,
}
use anytoken_distribution.Receipts.Record.{
  record_accounts, record_exchange_account, record_token_accounts, record_account_volumes,
  update_volumes,
}
use anytoken_distribution.Receipts.Parse.{
  append_exchange, append_erc20, record_buyer, record_receiver, keep_if, keep_erc20_if,
  exchange_receipt, erc20_receipt, is_followed_exchange, is_followed_token, log_address,
  keep_exchange_receipt, add_exchange_receipt, add_erc20_receipt,
}
use anytoken_distribution.Receipts.Logs.{
  append_v2_if, exchange_v2_receipt, add_exchange_v2_receipt, add_exchanges, handle_log,
}

-- The receipts that a transaction has been given.
abbrev pub count : State → ℕ
count s =
    length s.mt.erc20_receipts + length s.mt.exchange_receipts + length s.mt.exchange_v2_receipts

-- One receipt more if `saved`, and none otherwise.
abbrev pub Counts : State → Bool × State → Type 0
Counts s (true, s') = count s' ≡ suc (count s)
Counts s (false, s') = count s' ≡ count s

record_accounts-mt :
    (env : Env) (exchange pairs account : String) (s : State)
    → (record_accounts env exchange pairs account s).mt ≡ s.mt
unfolding record_accounts
record_accounts-mt env exchange pairs account s = refl

record_token_accounts-mt :
    (env : Env) (token account : String) (s : State)
    → (record_token_accounts env token account s).mt ≡ s.mt
unfolding record_token_accounts record_exchange_account record_accounts
record_token_accounts-mt env token account s = ground arith

record_account_volumes-mt :
    (env : Env) (ex : ExchangeReceipt) (topic : Topic) (s : State)
    → (record_account_volumes env ex topic s).mt ≡ s.mt
unfolding record_account_volumes
record_account_volumes-mt env ex topic s = ground arith

update_volumes-mt :
    (env : Env) (ex : ExchangeReceipt) (topic : Topic) (s : State)
    → (update_volumes env ex topic s).mt ≡ s.mt
unfolding update_volumes
update_volumes-mt env ex topic s = ground arith

record_buyer-mt :
    (env : Env) (topic : Topic) (ex : ExchangeReceipt) (s : State)
    → (record_buyer env topic ex s).mt ≡ s.mt
unfolding record_buyer
record_buyer-mt env token_purchase ex s = record_token_accounts-mt env _ ex.address s
record_buyer-mt env add_liquidity ex s = refl
record_buyer-mt env remove_liquidity ex s = refl
record_buyer-mt env eth_purchase ex s = refl
record_buyer-mt env transfer ex s = refl
record_buyer-mt env approval ex s = refl
record_buyer-mt env create_exchange ex s = refl
record_buyer-mt env mint ex s = refl
record_buyer-mt env burn ex s = refl
record_buyer-mt env swap ex s = refl
record_buyer-mt env other ex s = refl

append_exchange-mt :
    (ex : ExchangeReceipt) (s s' : State)
    → s'.mt ≡ s.mt
    → (append_exchange ex s').mt ≡ (append_exchange ex s).mt
append_exchange-mt ex s s' e = rw e refl

-- The rest of addExchangeReceipt leaves the transaction as appending the receipt does.
pub keep_exchange_receipt-mt :
    (env : Env) (topic : Topic) (ex : ExchangeReceipt) (account : String) (s : State)
    → (keep_exchange_receipt env topic ex account s).mt ≡ (append_exchange ex s).mt
unfolding keep_exchange_receipt
keep_exchange_receipt-mt env topic ex account s =
    let s1 = append_exchange ex (record_buyer env topic ex s) in
    let s2 = record_accounts env ex.exchange ex.pairs account s1 in
    update_volumes-mt env ex topic (record_account_volumes env ex topic s2)
    ∙ record_account_volumes-mt env ex topic s2
    ∙ record_accounts-mt env ex.exchange ex.pairs account s1
    ∙ append_exchange-mt ex s (record_buyer env topic ex s) (record_buyer-mt env topic ex s)

count-append : {A : Type 0} (xs : List A) (x : A) → length (xs ++ x ∷ []) ≡ suc (length xs)
count-append xs x = omega (arith, length-append xs (x ∷ []))

count_mt : (s s' : State) → s'.mt ≡ s.mt → count s' ≡ count s
count_mt s s' e = rw e refl

pub record_receiver-mt :
    (env : Env) (topic : Topic) (r : Erc20Receipt) (s : State)
    → (record_receiver env topic r s).mt ≡ s.mt
unfolding record_receiver
record_receiver-mt env transfer r s = record_token_accounts-mt env r.erc20 r.to s
record_receiver-mt env add_liquidity r s = refl
record_receiver-mt env remove_liquidity r s = refl
record_receiver-mt env token_purchase r s = refl
record_receiver-mt env eth_purchase r s = refl
record_receiver-mt env approval r s = refl
record_receiver-mt env create_exchange r s = refl
record_receiver-mt env mint r s = refl
record_receiver-mt env burn r s = refl
record_receiver-mt env swap r s = refl
record_receiver-mt env other r s = refl

keep_if-Counts :
    (env : Env) (topic : Topic) (kept : Option (ExchangeReceipt × String)) (s : State)
    → Counts s (keep_if env topic kept s)
keep_if-Counts env topic none s = refl
keep_if-Counts env topic (some (ex, account)) s = omega (
  arith,
  count_mt (append_exchange ex s) (keep_exchange_receipt env topic ex account s)
      (keep_exchange_receipt-mt env topic ex account s),
  count-append s.mt.exchange_receipts ex,
)

add_exchange_receipt-Counts :
    (env : Env) (topic : Topic) (rlog : Log) (i : ℕ) (log_type : String) (s : State)
    → Counts s (add_exchange_receipt env topic rlog i log_type s)
unfolding add_exchange_receipt
add_exchange_receipt-Counts env topic rlog i log_type s =
    elim (Bool-cases (is_followed_exchange env (log_address env rlog))) [
      | inl e ↦
          rw (e, add_exchange_receipt)
            (keep_if-Counts env topic (exchange_receipt env rlog i log_type rlog.topics) s)
      | inr e ↦ rw (e, add_exchange_receipt) refl
    ]

keep_erc20_if-Counts :
    (env : Env) (topic : Topic) (kept : Option Erc20Receipt) (s : State)
    → Counts s (keep_erc20_if env topic kept s)
keep_erc20_if-Counts env topic none s = refl
keep_erc20_if-Counts env topic (some r) s = omega (
  arith,
  count_mt (append_erc20 r s) (record_receiver env topic r (append_erc20 r s))
      (record_receiver-mt env topic r (append_erc20 r s)),
  count-append s.mt.erc20_receipts r,
)

add_erc20_receipt-Counts :
    (env : Env) (topic : Topic) (rlog : Log) (i : ℕ) (log_type : String) (s : State)
    → Counts s (add_erc20_receipt env topic rlog i log_type s)
unfolding add_erc20_receipt
add_erc20_receipt-Counts env topic rlog i log_type s =
    elim (Bool-cases (is_followed_token env (log_address env rlog) s)) [
      | inl e ↦
          rw (e, add_erc20_receipt)
            (keep_erc20_if-Counts env topic (erc20_receipt env rlog i log_type rlog.topics) s)
      | inr e ↦ rw (e, add_erc20_receipt) refl
    ]

append_v2_if-Counts : (kept : Option ExchangeV2Receipt) (s : State) → Counts s (append_v2_if kept s)
append_v2_if-Counts none s = refl
append_v2_if-Counts (some r) s = omega (arith, count-append s.mt.exchange_v2_receipts r)

-- What one log does: it counts, or leaves `save` and the receipts as they are.
abbrev pub Handles : Bool → State → Bool × State → Type 0
Handles save s (save', s') = ((save' ≡ save) × (count s' ≡ count s)) ⊎ Counts s (save', s')

Handles-same :
    (save : Bool) (s : State) (a b : Bool × State)
    → returns a ≡ returns b
    → Handles save s a
    → Handles save s b
Handles-same save s a b e h = subst (Handles save s) (returns-injective e) h

pub handle_log-Handles :
    (env : Env) (save : Bool) (topic : Topic) (rlog : Log) (i : ℕ) (s : State) (r : Bool × State)
    → handle_log env save topic rlog i s ≡ returns r
    → Handles save s r
unfolding handle_log add_exchange_v2_receipt
handle_log-Handles env save add_liquidity rlog i s r e =
    Handles-same save s _ r e
      (inr (add_exchange_receipt-Counts env add_liquidity rlog i "AddLiquidity" s))
handle_log-Handles env save remove_liquidity rlog i s r e =
    Handles-same save s _ r e
      (inr (add_exchange_receipt-Counts env remove_liquidity rlog i "RemoveLiquidity" s))
handle_log-Handles env save token_purchase rlog i s r e =
    Handles-same save s _ r e
      (inr (add_exchange_receipt-Counts env token_purchase rlog i "TokenPurchase" s))
handle_log-Handles env save eth_purchase rlog i s r e =
    Handles-same save s _ r e
      (inr (add_exchange_receipt-Counts env eth_purchase rlog i "EthPurchase" s))
handle_log-Handles env save transfer rlog i s r e =
    Handles-same save s _ r e (inr (add_erc20_receipt-Counts env transfer rlog i "Transfer" s))
handle_log-Handles env save approval rlog i s r e =
    Handles-same save s _ r e (inr (add_erc20_receipt-Counts env approval rlog i "Approval" s))
handle_log-Handles env save create_exchange rlog i s r e =
    let (all, _, same) = >>=-eq-returns (add_exchanges env rlog.topics s.all) _ e in
    Handles-same save s (save, record s { all = all }) r same (inl (refl, refl))
handle_log-Handles env save mint rlog i s r e =
    Handles-same save s _ r e
      (inr (append_v2_if-Counts (exchange_v2_receipt env mint rlog i "Mint" rlog.topics) s))
handle_log-Handles env save burn rlog i s r e =
    Handles-same save s _ r e
      (inr (append_v2_if-Counts (exchange_v2_receipt env burn rlog i "Burn" rlog.topics) s))
handle_log-Handles env save swap rlog i s r e =
    Handles-same save s _ r e
      (inr (append_v2_if-Counts (exchange_v2_receipt env swap rlog i "Swap" rlog.topics) s))
handle_log-Handles env save other rlog i s r e =
    Handles-same save s (save, s) r e (inl (refl, refl))
