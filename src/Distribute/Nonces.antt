-- ===== src/Distribute/Nonces.antt =====
-- What sendRewards sends: no nonce twice, and accounts that add up.
use anytoken_distribution.Base.{
  ℕ, suc, ◌+◌, ◌≤◌, ◌<◌, ◌≡◌, refl, Option, none, some, List, [], ◌∷◌, length, Bool, true, false,
  arith, word, Bool-cases, inl, inr,
}
use anytoken_distribution.Int.{ℤ, pos, ◌+ℤ◌, ltb_ℤ, int_laws}
use anytoken_distribution.Reward.Stats.{AccountStat}
use anytoken_distribution.Distribute.Send.{
  Node, Transaction, Sender, SendResult, dust_reward, dry_run, sent, failed, Progress, next_nonce,
  send_rewards_transaction, account_result, payable, send_one, send_rewards, start_sending,
}

-- The nonces fall strictly from below `n`: the transactions are listed latest first.
abbrev pub Descending : ℕ → List Transaction → Type 0
Descending n [] = Unit
Descending n (tx ∷ txs) = (tx.nonce < n) × Descending tx.nonce txs

abbrev pub total_value : List Transaction → ℤ
total_value [] = pos 0
total_value (tx ∷ txs) = tx.value +ℤ total_value txs

-- The positive rewards of a slice.
abbrev pub payable_value : Option ℤ → ℤ
payable_value none = pos 0
payable_value (some reward) = reward

abbrev pub payable_sum : List AccountStat → ℤ
payable_sum [] = pos 0
payable_sum (stat ∷ stats) = payable_value (payable stat) +ℤ payable_sum stats

pub record IsAccounted (sender : Sender) (p : Progress) : Type 0 where
  pub descending : Descending p.nonce p.transactions
  pub balanced :
      sender.is_dry_run ≡ false
      → p.rewards_sended ≡ p.total_dust_reward +ℤ total_value p.transactions
  pub silent : sender.is_dry_run ≡ true → p.transactions ≡ []

-- The node's nonces leave room for `room` more transactions.
abbrev pub HasRoom : ℕ → Node → Type 0
HasRoom room node = (n : ℕ) → node.pending ≡ some n → n + room < word

pub Descending-mono :
    {m n : ℕ} (txs : List Transaction) → m ≤ n → Descending m txs → Descending n txs
Descending-mono [] le h = tt
Descending-mono (tx ∷ txs) le (lt, rest) = (omega arith, rest)

next_nonce_bounds :
    (room nonce : ℕ) (pending : Option ℕ)
    → nonce + room < word
    → ((n : ℕ) → pending ≡ some n → n + room < word)
    → (nonce ≤ next_nonce nonce pending) × (next_nonce nonce pending + room < word)
unfolding next_nonce
next_nonce_bounds room nonce none h hp = (omega arith, h)
next_nonce_bounds room nonce (some n) h hp = ground (arith, hp n refl)

-- What one call does to the nonce, by its result.
abbrev pub Calls : Sender → (nonce room : ℕ) → ℤ → ℕ × SendResult → Type 0
Calls sender nonce room reward (n, dust_reward) = n ≡ nonce
Calls sender nonce room reward (n, dry_run) = (n ≡ nonce) × (sender.is_dry_run ≡ true)
Calls sender nonce room reward (n, sent tx) =
    (sender.is_dry_run ≡ false)
    × (nonce ≤ tx.nonce)
    × (n ≡ suc tx.nonce)
    × (n + room < word)
    × (tx.value ≡ reward)
Calls sender nonce room reward (n, failed e) = (nonce ≤ n) × (n + room < word)

pub send_rewards_transaction-Calls :
    (sender : Sender) (node : Node) (nonce account room : ℕ) (reward : ℤ)
    → nonce + suc room < word
    → HasRoom (suc room) node
    → Calls sender nonce room reward (send_rewards_transaction sender node nonce account reward)
unfolding send_rewards_transaction
send_rewards_transaction-Calls sender node nonce account room reward h hn =
    let (le, lt) = next_nonce_bounds (suc room) nonce node.pending h hn in
    elim (Bool-cases (ltb_ℤ reward sender.dust_threshold)) [
      | inl dust ↦ rw dust refl
      | inr enough ↦ elim (Bool-cases sender.is_dry_run) [
        | inl dry ↦ rw (enough, dry) (refl, refl)
        | inr wet ↦ elim (Bool-cases node.signs) [
          | inr no_key ↦ rw (enough, wet, no_key) (le, omega arith)
          | inl signed ↦ elim (Bool-cases node.accepts) [
            | inr refused ↦ rw (enough, wet, signed, refused) (le, omega arith)
            | inl taken ↦ rw (enough, wet, signed, taken) (refl, le, omega arith, omega arith, refl)
          ]
        ]
      ]
    ]

-- What one round keeps, with the reward that it adds if the loop goes on.
abbrev Advances : Sender → ℕ → Progress → ℤ → Bool × Progress → Type 0
Advances sender room p added (goes_on, p') =
    IsAccounted sender p'
    × (p'.nonce + room < word)
    × (goes_on ≡ true → p'.rewards_sended ≡ p.rewards_sended +ℤ added)

account_result-Advances :
    (sender : Sender) (room : ℕ) (reward : ℤ) (result : ℕ × SendResult) (p : Progress)
    → p.nonce + room < word
    → IsAccounted sender p
    → Calls sender p.nonce room reward result
    → Advances sender room p reward (account_result sender reward result p)
unfolding account_result
account_result-Advances sender room reward (n, dust_reward) p h acc same = (
  record {
    descending = Descending-mono p.transactions (omega arith) acc.descending;
    balanced = λ wet. rw (acc.balanced wet) (omega int_laws);
    silent = acc.silent;
  },
  omega arith,
  λ _. refl,
)
account_result-Advances sender room reward (n, dry_run) p h acc (same, dry) = (
  record {
    descending = Descending-mono p.transactions (omega arith) acc.descending;
    balanced = λ wet. cc;
    silent = acc.silent;
  },
  omega arith,
  λ _. refl,
)
account_result-Advances sender room reward (n, sent tx) p h acc (wet, le, next, fits, value) = (
  record {
    descending = (omega arith, Descending-mono p.transactions le acc.descending);
    balanced = λ _. rw (acc.balanced wet, value) (omega int_laws);
    silent = λ dry. cc;
  },
  fits,
  λ _. refl,
)
account_result-Advances sender room reward (n, failed e) p h acc (le, fits) = (
  record {
    descending = Descending-mono p.transactions le acc.descending;
    balanced = acc.balanced;
    silent = acc.silent;
  },
  fits,
  λ c. cc,
)

-- One round of the loop, with room for one more transaction.
send_one-Advances :
    (sender : Sender) (node : Node) (stat : AccountStat) (r : Option ℤ) (p : Progress) (room : ℕ)
    → p.nonce + suc room < word
    → HasRoom (suc room) node
    → IsAccounted sender p
    → Advances sender room p (payable_value r) (send_one sender node stat r p)
unfolding send_one
send_one-Advances sender node stat none p room h hn acc = (acc, omega arith, λ _. omega int_laws)
send_one-Advances sender node stat (some reward) p room h hn acc =
    account_result-Advances sender room reward _ p (omega arith) acc
      (send_rewards_transaction-Calls sender node p.nonce stat.account room reward h hn)

send_rewards-Advances :
    (sender : Sender) (nodes : ℕ → Node) (i : ℕ) (stats : List AccountStat) (p : Progress)
    → p.nonce + length stats < word
    → ((j : ℕ) → HasRoom (length stats) (nodes j))
    → IsAccounted sender p
    → let (ended, p') = send_rewards sender nodes i stats p in
      IsAccounted sender p'
      × (ended ≡ true → p'.rewards_sended ≡ p.rewards_sended +ℤ payable_sum stats)
unfolding send_rewards
send_rewards-Advances sender nodes i [] p h hn acc = (acc, λ _. omega int_laws)
send_rewards-Advances sender nodes i (stat ∷ stats) p h hn acc =
    let (goes_on, p') = send_one sender (nodes i) stat (payable stat) p in
    let (acc', room, added) =
      send_one-Advances sender (nodes i) stat (payable stat) p (length stats) h (hn i) acc in
    let (acc'', total) =
      send_rewards-Advances sender nodes (i + 1) stats p' room (λ j n e. omega (arith, hn j n e))
        acc' in
    elim (Bool-cases goes_on) [
      | inl on ↦ rw on (acc'', λ ended. rw (total ended, added on) (omega int_laws))
      | inr off ↦ rw off (acc', λ c. cc)
    ]

-- sendRewards and sendRewardsFromFile, from any nonce, with whatever the node does, as long as its
-- nonces and the code's leave room for the accounts below 2^64: whether the loop ends or stops at a
-- failure, no two transactions have the same nonce (they rise, and lie below the next nonce); the
-- rewards counted as sent are, unless it is a dry run, the dust plus the values of the transactions;
-- a dry run sends no transaction; and a loop that ends has counted every positive reward.
pub send_rewards_accounts :
    (sender : Sender) (nodes : ℕ → Node) (nonce : ℕ) (stats : List AccountStat)
    → nonce + length stats < word
    → ((j : ℕ) → HasRoom (length stats) (nodes j))
    → let (ended, p) = send_rewards sender nodes 0 stats (start_sending nonce) in
      IsAccounted sender p × (ended ≡ true → p.rewards_sended ≡ payable_sum stats)
unfolding start_sending
send_rewards_accounts sender nodes nonce stats h hn =
    let (acc, total) =
      send_rewards-Advances sender nodes 0 stats (start_sending nonce) h hn
        (record { descending = tt; balanced = λ _. omega int_laws; silent = λ _. refl }) in
    (acc, λ ended. rw (total ended) (omega int_laws))
