-- ===== src/Receipts/RisingLogs.antt =====
-- parseReceipt gives the receipts and the volume records of a transaction log indices that rise.
use anytoken_distribution.Base.{
  ℕ, ◌+◌, ◌≡◌, subst, inl, inr, some, List, [], ◌∷◌, length, Bool, false, ◌||◌, ◌==◌, arith,
  Bool-cases, Ascending, at_true, at_false,
}
use anytoken_distribution.Outcome.{returns, >>=-eq-returns, returns-injective}
use anytoken_distribution.Receipts.Topics.{topic_of}
use anytoken_distribution.Receipts.Records.{Log, Receipt, Env, State}
use anytoken_distribution.Receipts.Logs.{
  handle_log, parse_log, parse_log_topics, parse_logs, parse_receipt,
}
use anytoken_distribution.Receipts.Indices.{receipt_indices, histories, erc20_indices, v2_indices}
use anytoken_distribution.Receipts.Rising.{
  IsRising, IsRising-Adds, IsRising-later, IsRising-at, IsRising-none, IsFresh, handle_log-Adds,
}

IsRising-same :
    (i : ℕ) (a b : Bool × Bool × State) → returns a ≡ returns b → IsRising i a.2 → IsRising i b.2
IsRising-same i a b e h = subst (λ r. IsRising i r.2) (returns-injective e) h

parse_log_topics-IsRising :
    (env : Env) (rlog : Log) (topics : List ℕ) (i : ℕ) (save savedb : Bool) (s : State)
    (r : Bool × Bool × State)
    → parse_log_topics env rlog topics i (save, savedb, s) ≡ returns r
    → IsRising i s
    → IsRising (i + 1) r.2
unfolding parse_log_topics
parse_log_topics-IsRising env rlog [] i save savedb s r e h =
    IsRising-same (i + 1) (save, savedb, s) r e (IsRising-later i s h)
parse_log_topics-IsRising env rlog (topic ∷ topics) i save savedb s r e h =
    elim (Bool-cases rlog.removed) [
      | inl c ↦
          IsRising-same (i + 1) (save, savedb, s) r (at_true rlog.removed _ _ c e)
            (IsRising-later i s h)
      | inr c ↦
          let ((save', s'), run, same) =
            >>=-eq-returns (handle_log env save (topic_of topic) rlog i s) _
              (at_false rlog.removed _ _ c e) in
          IsRising-same (i + 1) (save', savedb || save', s') r same
            (IsRising-Adds i s s'
              (handle_log-Adds env save (topic_of topic) rlog i s (save', s') run) h)
    ]

parse_logs-IsRising :
    (env : Env) (logs : List Log) (i : ℕ) (a b : Bool × Bool × State)
    → parse_logs env logs i a ≡ returns b
    → IsRising i a.2
    → IsRising (i + length logs) b.2
unfolding parse_logs parse_log
parse_logs-IsRising env [] i a b e h =
    IsRising-same (i + 0) a b e (IsRising-at i (i + 0) a.2 (omega arith) h)
parse_logs-IsRising env (rlog ∷ logs) i a b e h =
    let (r, first, rest) = >>=-eq-returns (parse_log env rlog i a) _ e in
    IsRising-at (i + 1 + length logs) (i + length (rlog ∷ logs)) b.2 (omega arith) (
      parse_logs-IsRising env logs (i + 1) r b rest
        (parse_log_topics-IsRising env rlog rlog.topics i a.0 a.1 a.2 r first h))

-- parseReceipt, on a transaction without receipts and before any call of the database, where it
-- returns: the log indices of the exchange receipts rise and are below the number of logs, and so do
-- those of the volume records that are added to the database, of the ERC20 receipts, and of the
-- exchange V2 receipts; so no two of one kind have the same index.
pub parse_receipt-Ascending :
    (env : Env) (receipt : Receipt) (s s' : State) (savedb : Bool)
    → IsFresh s
    → parse_receipt env (some receipt) s ≡ returns (savedb, s')
    → Ascending 0 (length receipt.logs) (receipt_indices s')
      × Ascending 0 (length receipt.logs) (histories s')
      × Ascending 0 (length receipt.logs) (erc20_indices s')
      × Ascending 0 (length receipt.logs) (v2_indices s')
unfolding parse_receipt
parse_receipt-Ascending env receipt s s' savedb fresh e =
    let start = IsRising-none s 0 fresh in
    elim (Bool-cases (receipt.status == 0)) [
      | inl c ↦
          subst (λ (r : Bool × State). IsRising (length receipt.logs) r.1)
            (returns-injective (at_true (receipt.status == 0) _ _ c e))
            (IsRising-none s (length receipt.logs) fresh)
      | inr c ↦
          let (r, run, same) =
            >>=-eq-returns (parse_logs env receipt.logs 0 (false, false, s)) _
              (at_false (receipt.status == 0) _ _ c e) in
          subst (λ (r : Bool × State). IsRising (length receipt.logs) r.1) (returns-injective same)
            (IsRising-at (0 + length receipt.logs) (length receipt.logs) r.2 (omega arith)
              (parse_logs-IsRising env receipt.logs 0 (false, false, s) r run start))
    ]
