-- ===== src/Distribute/Send.antt =====
-- distributer/sendtx.go and dispatchrewards.go: one reward transaction, and the loop that sends the
-- rewards of a slice of accounts. Log lines, output rows and the pauses between batches are left
-- out; the number of rows written is kept.
use anytoken_distribution.Base.{
  ℕ, ◌+◌, Option, none, some, List, [], ◌∷◌, Bool, true, false, not, ltb, if◌then◌else◌, add64,
}
use anytoken_distribution.Int.{ℤ, pos, ◌+ℤ◌, ltb_ℤ, is_nonpositive}
use anytoken_distribution.Reward.Stats.{AccountStat}

-- What the node and the signer do in one call: the pending nonce or an error, whether the
-- transaction is signed, and whether the node takes it.
pub record Node : Type 0 where
  pub pending : Option ℕ
  pub signs : Bool
  pub accepts : Bool

-- A transfer of the token to the account, or of coins if the token is the zero address.
pub record Transaction : Type 0 where
  pub nonce : ℕ
  pub token : ℕ
  pub account : ℕ
  pub value : ℤ

pub data SendError : Type 0 where
  sign_failed send_failed : SendError

-- The results (nil, errDustReward), (nil, nil), (txHash, nil) and (nil, err).
pub data SendResult : Type 0 where
  dust_reward dry_run : SendResult
  sent : Transaction → SendResult
  failed : SendError → SendResult

-- The settings of a run.
pub record Sender : Type 0 where
  pub dust_threshold : ℤ
  pub reward_token : ℕ
  pub is_dry_run : Bool

unfoldable pub next_nonce : ℕ → Option ℕ → ℕ
next_nonce nonce none = nonce
next_nonce nonce (some pending) = if ltb nonce pending then pending else nonce

-- sendRewardsTransaction: the nonce afterwards, and the result.
unfoldable pub send_rewards_transaction : Sender → Node → ℕ → (account : ℕ) → ℤ → ℕ × SendResult
unfolding next_nonce
send_rewards_transaction sender node nonce account reward =
    let n = next_nonce nonce node.pending in
    let tx : Transaction = record {
      nonce = n;
      token = sender.reward_token;
      account = account;
      value = reward;
    } in
    if ltb_ℤ reward sender.dust_threshold
    then (nonce, dust_reward)
    else if sender.is_dry_run
    then (nonce, dry_run)
    else if not node.signs
    then (n, failed sign_failed)
    else if not node.accepts
    then (n, failed send_failed)
    else (add64 n 1, sent tx)

-- The variables of the loop, the nonce, and the transactions sent, the latest first.
pub record Progress : Type 0 where
  pub nonce : ℕ
  pub rewards_sended : ℤ
  pub total_dust_reward : ℤ
  pub total_dust_reward_count : ℕ
  pub written : ℕ
  pub transactions : List Transaction

-- The body of the loop after the call: whether it goes on, and the variables.
unfoldable pub account_result : Sender → ℤ → ℕ × SendResult → Progress → Bool × Progress
account_result sender reward (nonce, dust_reward) p = (
  true,
  record p {
    nonce = nonce;
    rewards_sended = p.rewards_sended +ℤ reward;
    total_dust_reward = p.total_dust_reward +ℤ reward;
    total_dust_reward_count = p.total_dust_reward_count + 1;
    written = if sender.is_dry_run then p.written + 1 else p.written;
  },
)
account_result sender reward (nonce, dry_run) p = (
  true,
  record p {
    nonce = nonce;
    rewards_sended = p.rewards_sended +ℤ reward;
    written = if sender.is_dry_run then p.written + 1 else p.written;
  },
)
account_result sender reward (nonce, sent tx) p = (
  true,
  record p {
    nonce = nonce;
    rewards_sended = p.rewards_sended +ℤ reward;
    written = p.written + 1;
    transactions = tx ∷ p.transactions;
  },
)
account_result sender reward (nonce, failed e) p = (false, record p { nonce = nonce })

-- A reward that the loop passes over: nil, or not positive.
unfoldable pub payable : AccountStat → Option ℤ
payable stat = elim stat.reward [
  | none ↦ none
  | some reward ↦ if is_nonpositive reward then none else some reward
]

unfoldable pub send_one : Sender → Node → AccountStat → Option ℤ → Progress → Bool × Progress
unfolding account_result send_rewards_transaction
send_one sender node stat none p = (true, p)
send_one sender node stat (some reward) p =
    account_result sender reward (send_rewards_transaction sender node p.nonce stat.account reward)
      p

-- The loop of sendRewards, and of sendRewardsFromFile: whether it ended without
-- errSendTransactionFailed, and the variables. `nodes` holds what happens at each account.
unfoldable pub send_rewards :
    Sender → (ℕ → Node) → ℕ → List AccountStat → Progress → Bool × Progress
send_rewards sender nodes i [] p = (true, p)
send_rewards sender nodes i (stat ∷ stats) p =
    let (goes_on, p') = send_one sender (nodes i) stat (payable stat) p in
    let rest = send_rewards sender nodes (i + 1) stats p' in if goes_on then rest else (false, p')

unfoldable pub start_sending : ℕ → Progress
start_sending nonce = record {
  nonce = nonce;
  rewards_sended = pos 0;
  total_dust_reward = pos 0;
  total_dust_reward_count = 0;
  written = 0;
  transactions = [];
}
