-- ===== src/Receipts/Saved.antt =====
-- parseReceipt says that the transaction is to be saved exactly when a receipt has been added to it.
use anytoken_distribution.Base.{
  at_true, at_false, ℕ, ◌+◌, ◌≤◌, ◌≡◌, sym, ap, ◌∙◌, subst, inl, inr, refl, Option, none, some,
  List, [], ◌∷◌, Bool, true, false, ◌||◌, ltb, lt→ltb, ge→ltb, ◌==◌, arith, Bool-cases,
}
use anytoken_distribution.Outcome.{returns, >>=-eq-returns, returns-injective}
use anytoken_distribution.Receipts.Topics.{topic_of}
use anytoken_distribution.Receipts.Records.{Log, Receipt, Env, State}
use anytoken_distribution.Receipts.Logs.{
  handle_log, parse_log, parse_log_topics, parse_logs, parse_receipt,
}
use anytoken_distribution.Receipts.Counts.{count, Handles, handle_log-Handles}

-- After some rounds from a transaction with `n` receipts: `savedb` says whether there are more, and
-- `save` is set only if they are.
abbrev IsTold : ℕ → Bool × Bool × State → Type 0
IsTold n (save, savedb, s) =
    (n ≤ count s) × (savedb ≡ ltb n (count s)) × (save ≡ true → savedb ≡ true)

or_implied : (a b : Bool) → (b ≡ true → a ≡ true) → (a || b) ≡ a
or_implied true b h = refl
or_implied false true h = sym (h refl)
or_implied false false h = refl

or_true : (a : Bool) → (a || true) ≡ true
or_true true = refl
or_true false = refl

IsTold-step :
    (n : ℕ) (save savedb save' : Bool) (s s' : State)
    → IsTold n (save, savedb, s)
    → Handles save s (save', s')
    → IsTold n (save', savedb || save', s')
IsTold-step n save savedb true s s' (le, told, stale) (inr more) = (
  omega (arith, more),
  or_true savedb ∙ sym (lt→ltb n (count s') (omega (arith, more))),
  λ _. or_true savedb,
)
IsTold-step n save savedb false s s' (le, told, stale) (inr same) =
    let kept = or_implied savedb false (λ e. cc) in
    (omega (arith, same), kept ∙ told ∙ ap (ltb n) (sym same), λ e. cc)
IsTold-step n save savedb save' s s' (le, told, stale) (inl (left, same)) =
    let kept = or_implied savedb save' (λ e. stale (sym left ∙ e)) in
    (omega (arith, same), kept ∙ told ∙ ap (ltb n) (sym same), λ e. kept ∙ stale (sym left ∙ e))

IsTold-same : (n : ℕ) (a b : Bool × Bool × State) → returns a ≡ returns b → IsTold n a → IsTold n b
IsTold-same n a b e h = subst (IsTold n) (returns-injective e) h

parse_log_cases :
    (env : Env) (rlog : Log) (i n : ℕ) (save savedb : Bool) (s : State) (r : Bool × Bool × State)
    (topics : List ℕ)
    → parse_log_topics env rlog topics i (save, savedb, s) ≡ returns r
    → IsTold n (save, savedb, s)
    → IsTold n r
unfolding parse_log_topics
parse_log_cases env rlog i n save savedb s r [] e h = IsTold-same n (save, savedb, s) r e h
parse_log_cases env rlog i n save savedb s r (topic ∷ topics) e h = elim (Bool-cases rlog.removed) [
  | inl c ↦ IsTold-same n (save, savedb, s) r (at_true rlog.removed _ _ c e) h
  | inr c ↦
      let ((save', s'), run, same) =
        >>=-eq-returns (handle_log env save (topic_of topic) rlog i s) _
          (at_false rlog.removed _ _ c e) in
      IsTold-same n (save', savedb || save', s') r same
        (IsTold-step n save savedb save' s s' h
          (handle_log-Handles env save (topic_of topic) rlog i s (save', s') run))
]

parse_log-IsTold :
    (env : Env) (rlog : Log) (i n : ℕ) (save savedb : Bool) (s : State) (r : Bool × Bool × State)
    → parse_log env rlog i (save, savedb, s) ≡ returns r
    → IsTold n (save, savedb, s)
    → IsTold n r
unfolding parse_log
parse_log-IsTold env rlog i n save savedb s r e h =
    parse_log_cases env rlog i n save savedb s r rlog.topics e h

parse_logs-IsTold :
    (env : Env) (logs : List Log) (i n : ℕ) (a b : Bool × Bool × State)
    → parse_logs env logs i a ≡ returns b
    → IsTold n a
    → IsTold n b
unfolding parse_logs
parse_logs-IsTold env [] i n a b e h = IsTold-same n a b e h
parse_logs-IsTold env (rlog ∷ logs) i n a b e h =
    let (r, first, rest) = >>=-eq-returns (parse_log env rlog i a) _ e in
    parse_logs-IsTold env logs (i + 1) n r b rest
      (parse_log-IsTold env rlog i n a.0 a.1 a.2 r first h)

start-IsTold : (s : State) → IsTold (count s) (false, false, s)
start-IsTold s = (omega arith, sym (ge→ltb (count s) (count s) (omega arith)), λ e. e)

abbrev Tells : State → Bool × State → Type 0
Tells s (savedb, s') = (count s ≤ count s') × (savedb ≡ ltb (count s) (count s'))

Tells-same : (s : State) (a b : Bool × State) → returns a ≡ returns b → Tells s a → Tells s b
Tells-same s a b e h = subst (Tells s) (returns-injective e) h

start-Tells : (s : State) → Tells s (false, s)
start-Tells s = ((start-IsTold s).0, (start-IsTold s).1)

-- parseReceipt, where it returns (it panics only in addExchanges): the transaction then has as many
-- receipts as before or more, and the result says whether it has more, although `save` is not reset
-- between logs.
pub parse_receipt-counts :
    (env : Env) (receipt : Option Receipt) (s s' : State) (savedb : Bool)
    → parse_receipt env receipt s ≡ returns (savedb, s')
    → (count s ≤ count s') × (savedb ≡ ltb (count s) (count s'))
unfolding parse_receipt
parse_receipt-counts env none s s' savedb e = Tells-same s (false, s) (savedb, s') e (start-Tells s)
parse_receipt-counts env (some receipt) s s' savedb e = elim (Bool-cases (receipt.status == 0)) [
  | inl c ↦
      Tells-same s (false, s) (savedb, s') (at_true (receipt.status == 0) _ _ c e) (start-Tells s)
  | inr c ↦
      let ((save, savedb', t), run, same) =
        >>=-eq-returns (parse_logs env receipt.logs 0 (false, false, s)) _
          (at_false (receipt.status == 0) _ _ c e) in
      let (le, told, _) =
        parse_logs-IsTold env receipt.logs 0 (count s) (false, false, s) (save, savedb', t) run
          (start-IsTold s) in
      Tells-same s (savedb', t) (savedb, s') same (le, told)
]
