-- ===== src/Driver/Dispatched.antt =====
-- What dispatchRewards sends over all exchanges.
use anytoken_distribution.Base.{
  ℕ, ◌+◌, ◌<◌, ◌≡◌, refl, String, Option, none, some, List, [], ◌∷◌, ◌++◌, length, All, Bool, true,
  false, ◌&&◌, not, arith, word, Bool-cases, Option-cases, inl, inr,
}
use anytoken_distribution.Int.{ℤ, is_nonpositive, pos, ◌+ℤ◌, int_laws}
use anytoken_distribution.Outcome.{returns}
use anytoken_distribution.Reward.Stats.{AccountStat}
use anytoken_distribution.Reward.Slices.{count_all}
use anytoken_distribution.Distribute.Options.{DistOption}
use anytoken_distribution.Distribute.Send.{Transaction, Sender, Progress, start_sending}
use anytoken_distribution.Distribute.Nonces.{
  Descending, total_value, payable_sum, IsAccounted, HasRoom, send_rewards_accounts,
}
use anytoken_distribution.Driver.Sent.{send_rewards-Descending}
use anytoken_distribution.Driver.Setting.{Setting}
use anytoken_distribution.Driver.Dispatch.{
  DispatchError, Dispatched, sender_of, opening_error, ending_error, send_opened, send_exchange,
  noted, record_exchange, dispatch_from, start_dispatch, dispatch_rewards,
}

-- All transactions of the loops over the exchanges, the latest first.
abbrev pub all_sent : List Progress → List Transaction
all_sent [] = []
all_sent (p ∷ loops) = p.transactions ++ all_sent loops

-- The rewards that the loops count as sent.
abbrev pub total_sended : List Progress → ℤ
total_sended [] = pos 0
total_sended (p ∷ loops) = p.rewards_sended +ℤ total_sended loops

-- The rewards of the loops that were too small to be sent.
abbrev pub total_dust : List Progress → ℤ
total_dust [] = pos 0
total_dust (p ∷ loops) = p.total_dust_reward +ℤ total_dust loops

total_value-append :
    (txs later : List Transaction)
    → total_value (txs ++ later) ≡ total_value txs +ℤ total_value later
total_value-append [] later = omega int_laws
total_value-append (tx ∷ txs) later = rw (total_value-append txs later) (omega int_laws)

-- What loops that are not dry count as sent is dust, or the value of a transaction.
pub total_sended-split :
    (sender : Sender) (loops : List Progress)
    → sender.is_dry_run ≡ false
    → All (IsAccounted sender) loops
    → total_sended loops ≡ total_value (all_sent loops) +ℤ total_dust loops
total_sended-split sender [] wet all = omega int_laws
total_sended-split sender (p ∷ loops) wet (acc, all) =
    rw
      (
        acc.balanced wet,
        total_sended-split sender loops wet all,
        total_value-append p.transactions (all_sent loops),
      )
      (omega int_laws)

abbrev pub payable_total : List (List AccountStat) → ℤ
payable_total [] = pos 0
payable_total (s ∷ stats) = payable_sum s +ℤ payable_total stats

-- What holds of the end of an exchange.
abbrev pub Closes :
    Setting
    → DistOption
    → List AccountStat
    → (more : ℕ) → List Transaction
    → Option DispatchError × Progress
    → Type 0
Closes s opt stats more before (failure, p) =
    Descending p.nonce (p.transactions ++ before)
    × (p.nonce + more < word)
    × IsAccounted (sender_of s opt) p
    × (failure ≡ none → p.rewards_sended ≡ payable_sum stats)

pub start-IsAccounted : (sender : Sender) (nonce : ℕ) → IsAccounted sender (start_sending nonce)
unfolding start_sending
start-IsAccounted sender nonce = record {
  descending = tt;
  balanced = λ _. omega int_laws;
  silent = λ _. refl;
}

ending_error-Closes :
    (s : Setting) (opt : DistOption) (stats : List AccountStat) (more : ℕ)
    (before : List Transaction) (end : Bool × Progress)
    → Descending end.1.nonce (end.1.transactions ++ before)
    → end.1.nonce + more < word
    → IsAccounted (sender_of s opt) end.1
    → (end.0 ≡ true → end.1.rewards_sended ≡ payable_sum stats)
    → Closes s opt stats more before (ending_error end)
ending_error-Closes s opt stats more before (true, p) h lt acc total = (h, lt, acc, λ _. total refl)
ending_error-Closes s opt stats more before (false, p) h lt acc total = (h, lt, acc, λ c. cc)

pub send_opened-Closes :
    (s : Setting) (opt : DistOption) (i : ℕ) (stats : List AccountStat) (nonce more : ℕ)
    (before : List Transaction) (failure : Option DispatchError)
    → Descending nonce before
    → nonce + (length stats + more) < word
    → ((j : ℕ) → HasRoom (length stats + more) (s.nodes i j))
    → Closes s opt stats more before (send_opened s opt i stats nonce failure)
unfolding send_opened start_sending
send_opened-Closes s opt i stats nonce more before (some e) h lt hn =
    (h, omega arith, start-IsAccounted (sender_of s opt) nonce, λ c. cc)
send_opened-Closes s opt i stats nonce more before none h lt hn =
    let sender = sender_of s opt in
    let (h', lt') =
      send_rewards-Descending sender (s.nodes i) 0 more stats (start_sending nonce) before h lt
        hn in
    let (acc, total) =
      send_rewards_accounts sender (s.nodes i) nonce stats (omega arith)
        (λ j n e. omega (arith, hn j n e)) in
    ending_error-Closes s opt stats more before _ h' lt' acc total

-- What holds after dispatchRewards has gone through exchanges, and before.
pub record IsDispatched (s : Setting) (opt : DistOption) (more : ℕ) (d : Dispatched) : Type 0 where
  pub descending : Descending d.nonce (all_sent d.loops)
  pub room : d.nonce + more < word
  pub accounted : All (IsAccounted (sender_of s opt)) d.loops

abbrev Totals :
    Setting
    → DistOption
    → List (List AccountStat)
    → Dispatched
    → Option DispatchError × Dispatched
    → Type 0
Totals s opt stats d (failure, d') =
    IsDispatched s opt 0 d'
    × (failure ≡ none → total_sended d'.loops ≡ total_sended d.loops +ℤ payable_total stats)

record_exchange-IsDispatched :
    (s : Setting) (opt : DistOption) (i more : ℕ) (exchange : String) (p : Progress)
    (d : Dispatched)
    → IsDispatched s opt more (noted p d)
    → IsDispatched s opt more (record_exchange s opt i exchange p d)
      × (total_sended (record_exchange s opt i exchange p d).loops
          ≡ p.rewards_sended +ℤ total_sended d.loops)
unfolding record_exchange
record_exchange-IsDispatched s opt i more exchange p d h =
    elim (Bool-cases (opt.save_db && not (is_nonpositive p.rewards_sended))) [
      | inl e ↦
          rw e (record { descending = h.descending; room = h.room; accounted = h.accounted }, refl)
      | inr e ↦ rw e (h, refl)
    ]

dispatch_from-Totals :
    (s : Setting) (opt : DistOption) (no_volumes i : ℕ) (exchanges : List String)
    (stats : List (List AccountStat)) (d : Dispatched)
    → length exchanges ≡ length stats
    → IsDispatched s opt (count_all stats) d
    → ((i j : ℕ) → HasRoom (count_all stats) (s.nodes i j))
    → (r : Option DispatchError × Dispatched) × (dispatch_from s opt no_volumes i exchanges stats d
        ≡ returns r)
      × Totals s opt stats d r
unfolding dispatch_from send_exchange
dispatch_from-Totals s opt no_volumes i [] [] d e h hn = ((none, d), refl, (h, λ _. omega int_laws))
dispatch_from-Totals s opt no_volumes i [] (stat ∷ stats) d e h hn = absurd (omega arith)
dispatch_from-Totals s opt no_volumes i (exchange ∷ exchanges) [] d e h hn = absurd (omega arith)
dispatch_from-Totals s opt no_volumes i (exchange ∷ exchanges) (stat ∷ stats) d e h hn =
    let start = opening_error s opt no_volumes i exchange in
    let (failure, p) = send_opened s opt i stat d.nonce start in
    let (falls, lt, acc, total) =
      send_opened-Closes s opt i stat d.nonce (count_all stats) (all_sent d.loops) start
        h.descending h.room (λ j. hn i j) in
    let closed : IsDispatched s opt (count_all stats) (noted p d) = record {
      descending = falls;
      room = lt;
      accounted = (acc, h.accounted);
    } in
    let (kept, added) =
      record_exchange-IsDispatched s opt i (count_all stats) exchange p d closed in
    let (r, run, (dispatched, sums)) =
      dispatch_from-Totals s opt no_volumes (i + 1) exchanges stats
        (record_exchange s opt i exchange p d) (omega arith) kept
        (λ i' j n eq. omega (arith, hn i' j n eq)) in
    elim (Option-cases failure) [
      | inl good ↦
          (r, rw good run, (dispatched, λ over. rw (sums over, added, total good) (omega int_laws)))
      | inr (err, bad) ↦ (
        (some err, noted p d),
        rw bad refl,
        (
          record { descending = falls; room = omega arith; accounted = (acc, h.accounted) },
          λ (c : some err ≡ none). cc,
        ),
      )
    ]

-- dispatchRewards, for a slice of accounts for each exchange, with whatever the files and the node
-- do, as long as the nonces leave room for all accounts below 2^64: it returns; whether it ends or
-- stops at an error, no two transactions have the same nonce, over all exchanges; what each exchange
-- counts as sent is, unless it is a dry run, its dust plus the values of its transactions, and a dry
-- run sends none; and if it ends without an error it has counted every positive reward.
pub dispatch_rewards-Totals :
    (s : Setting) (opt : DistOption) (no_volumes nonce : ℕ) (stats : List (List AccountStat))
    → length opt.exchanges ≡ length stats
    → nonce + count_all stats < word
    → ((i j : ℕ) → HasRoom (count_all stats) (s.nodes i j))
    → (failure : Option DispatchError) × (d : Dispatched) × (dispatch_rewards s opt no_volumes nonce
          stats
        ≡ returns (failure, d))
      × IsDispatched s opt 0 d
      × (failure ≡ none → total_sended d.loops ≡ payable_total stats)
unfolding dispatch_rewards start_dispatch
dispatch_rewards-Totals s opt no_volumes nonce stats e room hn =
    let (r, run, (dispatched, sums)) =
      dispatch_from-Totals s opt no_volumes 0 opt.exchanges stats (start_dispatch nonce) e
        (record { descending = tt; room = room; accounted = tt }) hn in
    (r.0, r.1, run, dispatched, λ over. rw (sums over) (omega int_laws))
