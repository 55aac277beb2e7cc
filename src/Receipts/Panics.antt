-- ===== src/Receipts/Panics.antt =====
-- When parseReceipt panics: exactly at a log of a created exchange with two topics.
use anytoken_distribution.Base.{
  ℕ, ◌+◌, ◌≡◌, subst, refl, some, List, [], ◌∷◌, length, Bool, true, false, ◌&&◌, ◌||◌, not, ◌==◌,
  if◌then◌else◌, arith,
}
use anytoken_distribution.Outcome.{Outcome, returns, panics, ◌>>=◌}
use anytoken_distribution.Config.Lookups.{AllPairs}
use anytoken_distribution.Receipts.Topics.{
  Topic, topic_of, add_liquidity, remove_liquidity, token_purchase, eth_purchase, transfer,
  approval, create_exchange, mint, burn, swap, other,
}
use anytoken_distribution.Receipts.Records.{Log, Receipt, Env, State}
use anytoken_distribution.Receipts.Logs.{
  add_exchanges, handle_log, parse_log, parse_log_topics, parse_logs, parse_receipt,
}

abbrev is_creation : Topic → Bool
is_creation create_exchange = true
is_creation _ = false

-- A log of a created exchange that was not removed and has two topics.
abbrev pub is_fatal : Log → List ℕ → Bool
is_fatal rlog [] = false
is_fatal rlog (topic ∷ topics) =
    not rlog.removed && (is_creation (topic_of topic) && length (topic ∷ topics) == 2)

abbrev pub any_fatal : List Log → Bool
any_fatal [] = false
any_fatal (rlog ∷ logs) = is_fatal rlog rlog.topics || any_fatal logs

-- Panics if `fatal`, and returns otherwise.
abbrev pub Ends : {A : Type 0} → Bool → Outcome A → Type 0
Ends true o = o ≡ panics
Ends {A} false o = (a : A) × (o ≡ returns a)

add_exchanges-Ends :
    (env : Env) (topics : List ℕ) (all : AllPairs)
    → Ends (length topics == 2) (add_exchanges env topics all)
unfolding add_exchanges
add_exchanges-Ends env (a ∷ b ∷ []) all = refl
add_exchanges-Ends env [] all = (all, refl)
add_exchanges-Ends env (a ∷ []) all = (all, refl)
add_exchanges-Ends env (a ∷ b ∷ c ∷ r) all =
    let e : (length (a ∷ b ∷ c ∷ r) == 2) ≡ false = ground arith in rw e (all, refl)

Ends-bind :
    {A B : Type 0} (fatal : Bool) (o : Outcome A) (f : A → B)
    → Ends fatal o
    → Ends fatal (o >>= λ a. returns (f a))
Ends-bind true o f e = rw e refl
Ends-bind false o f (a, e) = (f a, rw e refl)

handle_log-Ends :
    (env : Env) (save : Bool) (topic : Topic) (rlog : Log) (i : ℕ) (s : State)
    → Ends (is_creation topic && length rlog.topics == 2) (handle_log env save topic rlog i s)
unfolding handle_log
handle_log-Ends env save create_exchange rlog i s =
    Ends-bind (length rlog.topics == 2) (add_exchanges env rlog.topics s.all) _
      (add_exchanges-Ends env rlog.topics s.all)
handle_log-Ends env save add_liquidity rlog i s = (_, refl)
handle_log-Ends env save remove_liquidity rlog i s = (_, refl)
handle_log-Ends env save token_purchase rlog i s = (_, refl)
handle_log-Ends env save eth_purchase rlog i s = (_, refl)
handle_log-Ends env save transfer rlog i s = (_, refl)
handle_log-Ends env save approval rlog i s = (_, refl)
handle_log-Ends env save mint rlog i s = (_, refl)
handle_log-Ends env save burn rlog i s = (_, refl)
handle_log-Ends env save swap rlog i s = (_, refl)
handle_log-Ends env save other rlog i s = (_, refl)

Ends-unless :
    {A : Type 0} (removed fatal : Bool) (a : A) (o : Outcome A)
    → Ends fatal o
    → Ends (not removed && fatal) (if removed then returns a else o)
Ends-unless true fatal a o e = (a, refl)
Ends-unless false fatal a o e = e

Ends-then :
    {A B : Type 0} (fatal more : Bool) (o : Outcome A) (f : A → Outcome B)
    → Ends fatal o
    → ((a : A) → Ends more (f a))
    → Ends (fatal || more) (o >>= f)
Ends-then true more o f e rest = rw e refl
Ends-then false more o f (a, e) rest = rw e (rest a)

parse_log_topics-Ends :
    (env : Env) (rlog : Log) (topics : List ℕ) (i : ℕ) (save savedb : Bool) (s : State)
    → rlog.topics ≡ topics
    → Ends (is_fatal rlog topics) (parse_log_topics env rlog topics i (save, savedb, s))
unfolding parse_log_topics
parse_log_topics-Ends env rlog [] i save savedb s e = (_, refl)
parse_log_topics-Ends env rlog (topic ∷ topics) i save savedb s e =
    let kind = topic_of topic in
    let fatal = is_creation kind && length (topic ∷ topics) == 2 in
    let run : Ends fatal (handle_log env save kind rlog i s) =
      subst (λ ts. Ends (is_creation kind && length ts == 2) (handle_log env save kind rlog i s)) e
        (handle_log-Ends env save kind rlog i s) in
    Ends-unless rlog.removed fatal (save, savedb, s) _
      (Ends-bind fatal (handle_log env save kind rlog i s) _ run)

parse_logs-Ends :
    (env : Env) (logs : List Log) (i : ℕ) (r : Bool × Bool × State)
    → Ends (any_fatal logs) (parse_logs env logs i r)
unfolding parse_logs parse_log
parse_logs-Ends env [] i r = (r, refl)
parse_logs-Ends env (rlog ∷ logs) i (save, savedb, s) =
    Ends-then (is_fatal rlog rlog.topics) (any_fatal logs) (parse_log env rlog i (save, savedb, s))
      _ (parse_log_topics-Ends env rlog rlog.topics i save savedb s refl)
      (λ r. parse_logs-Ends env logs (i + 1) r)

-- parseReceipt, of a receipt with status zero, returns; of another one, it panics if one of the logs
-- is a log of a created exchange that was not removed and has exactly two topics, and returns
-- otherwise.
pub parse_receipt-Ends :
    (env : Env) (receipt : Receipt) (s : State)
    → Ends
        (not (receipt.status == 0) && any_fatal receipt.logs)
        (parse_receipt env (some receipt) s)
unfolding parse_receipt
parse_receipt-Ends env receipt s =
    Ends-unless (receipt.status == 0) (any_fatal receipt.logs) (false, s) _
      (Ends-bind (any_fatal receipt.logs) (parse_logs env receipt.logs 0 (false, false, s)) _
        (parse_logs-Ends env receipt.logs 0 (false, false, s)))
