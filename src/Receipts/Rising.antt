-- ===== src/Receipts/Rising.antt =====
-- The log indices of a transaction's receipts and volume records rise.
use anytoken_distribution.Base.{
  ℕ, ◌+◌, ◌≡◌, ◌∙◌, true, false, if◌then◌else◌, subst, inl, inr, refl, String, Option, none, some,
  List, [], ◌∷◌, Bool, arith, Bool-cases, Ascending, Ascending-append, Ascending-weaken,
}
use anytoken_distribution.Outcome.{returns, >>=-eq-returns, returns-injective}
use anytoken_distribution.Receipts.Topics.{
  Topic, add_liquidity, remove_liquidity, token_purchase, eth_purchase, transfer, approval,
  create_exchange, mint, burn, swap, other,
}
use anytoken_distribution.Receipts.Records.{Log, Erc20Receipt, ExchangeV2Receipt, Env, State}
use anytoken_distribution.Receipts.Parse.{
  append_erc20, append_v2, record_receiver, keep_if, keep_erc20_if, exchange_receipt, erc20_receipt,
  is_followed_exchange, is_followed_token, log_address, add_exchange_receipt, add_erc20_receipt,
}
use anytoken_distribution.Receipts.Logs.{
  with_amounts, append_v2_if, exchange_v2_receipt, add_exchange_v2_receipt, add_exchanges,
  handle_log,
}
use anytoken_distribution.Receipts.Counts.{record_receiver-mt}
use anytoken_distribution.Receipts.Indices.{
  Extends, Adds, receipt_indices, histories, erc20_indices, v2_indices, map-append, receipts_mt,
  erc20_mt, v2_mt, record_receiver-histories, keep_exchange_receipt-Adds,
}

no_more : (i : ℕ) (s : State) → Adds i s s
no_more i s = (inl refl, inl refl, inl refl, inl refl)

keep_if-Adds :
    (env : Env) (topic : Topic) (rlog : Log) (i : ℕ) (log_type : String) (topics : List ℕ)
    (s : State)
    → Adds i s (keep_if env topic (exchange_receipt env rlog i log_type topics) s).1
unfolding exchange_receipt
keep_if-Adds env topic rlog i log_type [] s = no_more i s
keep_if-Adds env topic rlog i log_type (_ ∷ []) s = no_more i s
keep_if-Adds env topic rlog i log_type (_ ∷ _ ∷ []) s = no_more i s
keep_if-Adds env topic rlog i log_type (_ ∷ _ ∷ _ ∷ []) s = no_more i s
keep_if-Adds env topic rlog i log_type (_ ∷ account ∷ from ∷ to ∷ _) s =
    keep_exchange_receipt-Adds env topic _
      (env.lib.address_string (env.lib.bytes_to_address account)) s

add_exchange_receipt-Adds :
    (env : Env) (topic : Topic) (rlog : Log) (i : ℕ) (log_type : String) (s : State)
    → Adds i s (add_exchange_receipt env topic rlog i log_type s).1
unfolding add_exchange_receipt
add_exchange_receipt-Adds env topic rlog i log_type s =
    elim (Bool-cases (is_followed_exchange env (log_address env rlog))) [
      | inl e ↦ rw (e, add_exchange_receipt) (keep_if-Adds env topic rlog i log_type rlog.topics s)
      | inr e ↦ rw (e, add_exchange_receipt) (no_more i s)
    ]

keep_erc20-Adds :
    (env : Env) (topic : Topic) (r : Erc20Receipt) (s : State)
    → Adds r.log_index s (record_receiver env topic r (append_erc20 r s))
keep_erc20-Adds env topic r s =
    let s' = append_erc20 r s in
    let same = record_receiver-mt env topic r s' in
    (
      inl (receipts_mt s' (record_receiver env topic r s') same),
      inl (record_receiver-histories env topic r s'),
      inr (
          erc20_mt s' (record_receiver env topic r s') same
          ∙ map-append (λ (e : Erc20Receipt). e.log_index) s.mt.erc20_receipts r),
      inl (v2_mt s' (record_receiver env topic r s') same),
    )

keep_erc20_if-Adds :
    (env : Env) (topic : Topic) (rlog : Log) (i : ℕ) (log_type : String) (topics : List ℕ)
    (s : State)
    → Adds i s (keep_erc20_if env topic (erc20_receipt env rlog i log_type topics) s).1
unfolding erc20_receipt
keep_erc20_if-Adds env topic rlog i log_type [] s = no_more i s
keep_erc20_if-Adds env topic rlog i log_type (_ ∷ []) s = no_more i s
keep_erc20_if-Adds env topic rlog i log_type (_ ∷ _ ∷ []) s = no_more i s
keep_erc20_if-Adds env topic rlog i log_type (_ ∷ from ∷ to ∷ _) s = keep_erc20-Adds env topic _ s

add_erc20_receipt-Adds :
    (env : Env) (topic : Topic) (rlog : Log) (i : ℕ) (log_type : String) (s : State)
    → Adds i s (add_erc20_receipt env topic rlog i log_type s).1
unfolding add_erc20_receipt
add_erc20_receipt-Adds env topic rlog i log_type s =
    elim (Bool-cases (is_followed_token env (log_address env rlog) s)) [
      | inl e ↦
          rw (e, add_erc20_receipt) (keep_erc20_if-Adds env topic rlog i log_type rlog.topics s)
      | inr e ↦ rw (e, add_erc20_receipt) (no_more i s)
    ]

-- A receipt of log `i`, if there is one.
abbrev HasIndex : ℕ → Option ExchangeV2Receipt → Type 0
HasIndex i none = Unit
HasIndex i (some r) = r.log_index ≡ i

HasIndex-if :
    (i : ℕ) (b : Bool) (kept : Option ExchangeV2Receipt)
    → HasIndex i kept
    → HasIndex i (if b then none else kept)
HasIndex-if i true kept h = tt
HasIndex-if i false kept h = h

with_amounts-HasIndex :
    (env : Env) (topic : Topic) (rlog : Log) (r : ExchangeV2Receipt)
    → HasIndex r.log_index (with_amounts env topic rlog r)
unfolding with_amounts
with_amounts-HasIndex env mint rlog r = HasIndex-if r.log_index _ (some _) refl
with_amounts-HasIndex env burn rlog r = HasIndex-if r.log_index _ (some _) refl
with_amounts-HasIndex env swap rlog r = HasIndex-if r.log_index _ (some _) refl
with_amounts-HasIndex env add_liquidity rlog r = tt
with_amounts-HasIndex env remove_liquidity rlog r = tt
with_amounts-HasIndex env token_purchase rlog r = tt
with_amounts-HasIndex env eth_purchase rlog r = tt
with_amounts-HasIndex env transfer rlog r = tt
with_amounts-HasIndex env approval rlog r = tt
with_amounts-HasIndex env create_exchange rlog r = tt
with_amounts-HasIndex env other rlog r = tt

exchange_v2_receipt-HasIndex :
    (env : Env) (topic : Topic) (rlog : Log) (i : ℕ) (log_type : String) (topics : List ℕ)
    → HasIndex i (exchange_v2_receipt env topic rlog i log_type topics)
unfolding exchange_v2_receipt
exchange_v2_receipt-HasIndex env topic rlog i log_type [] = tt
exchange_v2_receipt-HasIndex env topic rlog i log_type (_ ∷ []) = tt
exchange_v2_receipt-HasIndex env topic rlog i log_type (first ∷ sender ∷ rest) =
    HasIndex-if i _ (with_amounts env topic rlog _) (with_amounts-HasIndex env topic rlog _)

append_v2_if-Adds :
    (i : ℕ) (kept : Option ExchangeV2Receipt) (s : State)
    → HasIndex i kept
    → Adds i s (append_v2_if kept s).1
append_v2_if-Adds i none s h = no_more i s
append_v2_if-Adds i (some r) s h =
    subst (λ j. Adds j s (append_v2 r s)) h
      (
        inl refl,
        inl refl,
        inl refl,
        inr (map-append (λ (e : ExchangeV2Receipt). e.log_index) s.mt.exchange_v2_receipts r),
      )

add_exchange_v2_receipt-Adds :
    (env : Env) (topic : Topic) (rlog : Log) (i : ℕ) (log_type : String) (s : State)
    → Adds i s (add_exchange_v2_receipt env topic rlog i log_type s).1
unfolding add_exchange_v2_receipt
add_exchange_v2_receipt-Adds env topic rlog i log_type s =
    append_v2_if-Adds i (exchange_v2_receipt env topic rlog i log_type rlog.topics) s
      (exchange_v2_receipt-HasIndex env topic rlog i log_type rlog.topics)

Adds-same :
    (i : ℕ) (s : State) (a b : Bool × State) → returns a ≡ returns b → Adds i s a.1 → Adds i s b.1
Adds-same i s a b e h = subst (λ r. Adds i s r.1) (returns-injective e) h

pub handle_log-Adds :
    (env : Env) (save : Bool) (topic : Topic) (rlog : Log) (i : ℕ) (s : State) (r : Bool × State)
    → handle_log env save topic rlog i s ≡ returns r
    → Adds i s r.1
unfolding handle_log
handle_log-Adds env save add_liquidity rlog i s r e =
    Adds-same i s _ r e (add_exchange_receipt-Adds env add_liquidity rlog i "AddLiquidity" s)
handle_log-Adds env save remove_liquidity rlog i s r e =
    Adds-same i s _ r e (add_exchange_receipt-Adds env remove_liquidity rlog i "RemoveLiquidity" s)
handle_log-Adds env save token_purchase rlog i s r e =
    Adds-same i s _ r e (add_exchange_receipt-Adds env token_purchase rlog i "TokenPurchase" s)
handle_log-Adds env save eth_purchase rlog i s r e =
    Adds-same i s _ r e (add_exchange_receipt-Adds env eth_purchase rlog i "EthPurchase" s)
handle_log-Adds env save transfer rlog i s r e =
    Adds-same i s _ r e (add_erc20_receipt-Adds env transfer rlog i "Transfer" s)
handle_log-Adds env save approval rlog i s r e =
    Adds-same i s _ r e (add_erc20_receipt-Adds env approval rlog i "Approval" s)
handle_log-Adds env save create_exchange rlog i s r e =
    let (all, _, same) = >>=-eq-returns (add_exchanges env rlog.topics s.all) _ e in
    Adds-same i s (save, record s { all = all }) r same (no_more i s)
handle_log-Adds env save mint rlog i s r e =
    Adds-same i s _ r e (add_exchange_v2_receipt-Adds env mint rlog i "Mint" s)
handle_log-Adds env save burn rlog i s r e =
    Adds-same i s _ r e (add_exchange_v2_receipt-Adds env burn rlog i "Burn" s)
handle_log-Adds env save swap rlog i s r e =
    Adds-same i s _ r e (add_exchange_v2_receipt-Adds env swap rlog i "Swap" s)
handle_log-Adds env save other rlog i s r e = Adds-same i s (save, s) r e (no_more i s)

-- After the logs below `i`.
abbrev pub IsRising : ℕ → State → Type 0
IsRising i s =
    Ascending 0 i (receipt_indices s)
    × Ascending 0 i (histories s)
    × Ascending 0 i (erc20_indices s)
    × Ascending 0 i (v2_indices s)

extend : (i : ℕ) (xs ys : List ℕ) → Extends i xs ys → Ascending 0 i xs → Ascending 0 (i + 1) ys
extend i xs ys (inl e) up = rw e (Ascending-weaken 0 i (i + 1) xs (omega arith) up)
extend i xs ys (inr e) up = rw e (
    Ascending-append 0 i (i + 1) xs (i ∷ []) (omega arith) (omega arith) up
      (omega arith, omega arith, tt))

pub IsRising-Adds : (i : ℕ) (s s' : State) → Adds i s s' → IsRising i s → IsRising (i + 1) s'
IsRising-Adds i s s' (receipts, records, erc20, v2) (up, up', up'', up3) = (
  extend i _ (receipt_indices s') receipts up,
  extend i _ (histories s') records up',
  extend i _ (erc20_indices s') erc20 up'',
  extend i _ (v2_indices s') v2 up3,
)

pub IsRising-later : (i : ℕ) (s : State) → IsRising i s → IsRising (i + 1) s
IsRising-later i s (up, up', up'', up3) = (
  Ascending-weaken 0 i (i + 1) (receipt_indices s) (omega arith) up,
  Ascending-weaken 0 i (i + 1) (histories s) (omega arith) up',
  Ascending-weaken 0 i (i + 1) (erc20_indices s) (omega arith) up'',
  Ascending-weaken 0 i (i + 1) (v2_indices s) (omega arith) up3,
)

pub IsRising-at : (i j : ℕ) (s : State) → i ≡ j → IsRising i s → IsRising j s
IsRising-at i j s e h = subst (λ n. IsRising n s) e h

-- A transaction without receipts, before any call of the database.
pub record IsFresh (s : State) : Type 0 where
  pub no_receipts : s.mt.exchange_receipts ≡ []
  pub no_erc20 : s.mt.erc20_receipts ≡ []
  pub no_v2 : s.mt.exchange_v2_receipts ≡ []
  pub no_writes : s.writes ≡ []

pub IsRising-none : (s : State) (n : ℕ) → IsFresh s → IsRising n s
IsRising-none s n fresh =
    (rw fresh.no_receipts tt, rw fresh.no_writes tt, rw fresh.no_erc20 tt, rw fresh.no_v2 tt)
