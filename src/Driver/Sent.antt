-- ===== src/Driver/Sent.antt =====
-- sendRewards sends above the nonces of all transactions before it.
use anytoken_distribution.Base.{
  ℕ, suc, ◌+◌, ◌<◌, Option, none, some, List, [], ◌∷◌, ◌++◌, length, arith, word, Bool-cases, inl,
  inr,
}
use anytoken_distribution.Int.{ℤ}
use anytoken_distribution.Reward.Stats.{AccountStat}
use anytoken_distribution.Distribute.Send.{
  Node, Transaction, Sender, SendResult, dust_reward, dry_run, sent, failed, Progress,
  account_result, payable, send_one, send_rewards,
}
use anytoken_distribution.Distribute.Nonces.{
  Descending, Descending-mono, HasRoom, Calls, send_rewards_transaction-Calls,
}

-- One call sends above the nonces of all transactions before it.
account_result-Descending :
    (sender : Sender) (room : ℕ) (reward : ℤ) (result : ℕ × SendResult) (p : Progress)
    (before : List Transaction)
    → Descending p.nonce (p.transactions ++ before)
    → Calls sender p.nonce room reward result
    → p.nonce + room < word
    → let (_, p') = account_result sender reward result p in
      Descending p'.nonce (p'.transactions ++ before) × (p'.nonce + room < word)
unfolding account_result
account_result-Descending sender room reward (n, dust_reward) p before h same lt =
    (Descending-mono (p.transactions ++ before) (omega arith) h, omega arith)
account_result-Descending sender room reward (n, dry_run) p before h (same, dry) lt =
    (Descending-mono (p.transactions ++ before) (omega arith) h, omega arith)
account_result-Descending sender room reward (n, sent tx) p before h (wet, le, next, fits, value)
      lt =
    ((omega arith, Descending-mono (p.transactions ++ before) le h), fits)
account_result-Descending sender room reward (n, failed e) p before h (le, fits) lt =
    (Descending-mono (p.transactions ++ before) le h, fits)

send_one-Descending :
    (sender : Sender) (node : Node) (stat : AccountStat) (r : Option ℤ) (p : Progress) (room : ℕ)
    (before : List Transaction)
    → Descending p.nonce (p.transactions ++ before)
    → p.nonce + suc room < word
    → HasRoom (suc room) node
    → let (_, p') = send_one sender node stat r p in
      Descending p'.nonce (p'.transactions ++ before) × (p'.nonce + room < word)
unfolding send_one
send_one-Descending sender node stat none p room before h lt hn = (h, omega arith)
send_one-Descending sender node stat (some reward) p room before h lt hn =
    account_result-Descending sender room reward _ p before h
      (send_rewards_transaction-Calls sender node p.nonce stat.account room reward lt hn)
      (omega arith)

-- The loop over the accounts, with room for `more` transactions after it.
pub send_rewards-Descending :
    (sender : Sender) (nodes : ℕ → Node) (i more : ℕ) (stats : List AccountStat) (p : Progress)
    (before : List Transaction)
    → Descending p.nonce (p.transactions ++ before)
    → p.nonce + (length stats + more) < word
    → ((j : ℕ) → HasRoom (length stats + more) (nodes j))
    → let (_, p') = send_rewards sender nodes i stats p in
      Descending p'.nonce (p'.transactions ++ before) × (p'.nonce + more < word)
unfolding send_rewards
send_rewards-Descending sender nodes i more [] p before h lt hn = (h, omega arith)
send_rewards-Descending sender nodes i more (stat ∷ stats) p before h lt hn =
    let (goes_on, p') = send_one sender (nodes i) stat (payable stat) p in
    let (h', lt') =
      send_one-Descending sender (nodes i) stat (payable stat) p (length stats + more) before h
        (omega arith) (λ n e. omega (arith, hn i n e)) in
    let after =
      send_rewards-Descending sender nodes (i + 1) more stats p' before h' lt'
        (λ j n e. omega (arith, hn j n e)) in
    elim (Bool-cases goes_on) [ inl on ↦ rw on after | inr off ↦ rw off (h', omega arith) ]
