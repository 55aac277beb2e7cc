-- ===== src/Driver/Owed.antt =====
-- What dispatchRewards sends to each account.
use anytoken_distribution.Base.{
  ℕ, ◌+◌, ◌≡◌, refl, sym, ap, ◌∙◌, String, Option, none, some, List, [], ◌∷◌, ◌++◌, length, Bool,
  true, false, ◌&&◌, not, ◌==◌, if◌then◌else◌, arith, Bool-cases, inl, inr,
}
use anytoken_distribution.Int.{ℤ, pos, ◌+ℤ◌, ltb_ℤ, is_nonpositive, int_laws}
use anytoken_distribution.Outcome.{Outcome, returns, returns-injective}
use anytoken_distribution.Reward.Stats.{AccountStat}
use anytoken_distribution.Distribute.Options.{DistOption}
use anytoken_distribution.Distribute.Send.{
  Node, Transaction, Sender, Progress, send_rewards_transaction, account_result, payable, send_one,
  send_rewards, start_sending,
}
use anytoken_distribution.Driver.Setting.{Setting}
use anytoken_distribution.Driver.Dispatch.{
  DispatchError, Dispatched, sender_of, ending_error, send_opened, send_exchange, opening_error,
  noted, record_exchange, stop_at, dispatch_from, start_dispatch, dispatch_rewards,
}
use anytoken_distribution.Driver.Dispatched.{all_sent}

-- The value of the transactions to account `a`.
abbrev pub total_to : ℕ → List Transaction → ℤ
total_to a [] = pos 0
total_to a (tx ∷ txs) = (if tx.account == a then tx.value else pos 0) +ℤ total_to a txs

-- The reward of an account, if it is `a` and the reward is positive and no dust.
abbrev pub owed_reward : Sender → (a account : ℕ) → Option ℤ → ℤ
owed_reward sender a account none = pos 0
owed_reward sender a account (some reward) =
    if ltb_ℤ reward sender.dust_threshold then pos 0 else if account == a then reward else pos 0

-- What account `a` has to be sent.
abbrev pub owed : Sender → ℕ → List AccountStat → ℤ
owed sender a [] = pos 0
owed sender a (stat ∷ stats) =
    owed_reward sender a stat.account (payable stat) +ℤ owed sender a stats

abbrev pub owed_all : Sender → ℕ → List (List AccountStat) → ℤ
owed_all sender a [] = pos 0
owed_all sender a (s ∷ stats) = owed sender a s +ℤ owed_all sender a stats

plus_none : (x : ℤ) → x ≡ pos 0 +ℤ x
plus_none x = omega int_laws

send_one-owed :
    (sender : Sender) (node : Node) (a : ℕ) (stat : AccountStat) (r : Option ℤ) (p : Progress)
    → sender.is_dry_run ≡ false
    → let (goes_on, p') = send_one sender node stat r p in
      goes_on ≡ true
      → total_to a p'.transactions
        ≡ owed_reward sender a stat.account r +ℤ total_to a p.transactions
unfolding send_one account_result send_rewards_transaction
send_one-owed sender node a stat none p wet = λ on. plus_none (total_to a p.transactions)
send_one-owed sender node a stat (some reward) p wet =
    elim (Bool-cases (ltb_ℤ reward sender.dust_threshold)) [
      | inl e ↦ simp e (λ on. plus_none (total_to a p.transactions))
      | inr e ↦ elim (Bool-cases node.signs) [
        | inr f ↦ simp (e, wet, f) (λ on. cc)
        | inl f ↦ elim (Bool-cases node.accepts) [
          | inr g ↦ simp (e, wet, f, g) (λ on. cc)
          | inl g ↦ simp (e, wet, f, g) (λ on. refl)
        ]
      ]
    ]

send_rewards-owed :
    (sender : Sender) (nodes : ℕ → Node) (a i : ℕ) (stats : List AccountStat) (p : Progress)
    → sender.is_dry_run ≡ false
    → let (ended, p') = send_rewards sender nodes i stats p in
      ended ≡ true → total_to a p'.transactions ≡ owed sender a stats +ℤ total_to a p.transactions
unfolding send_rewards
send_rewards-owed sender nodes a i [] p wet = λ ended. plus_none (total_to a p.transactions)
send_rewards-owed sender nodes a i (stat ∷ stats) p wet =
    let (goes_on, p') = send_one sender (nodes i) stat (payable stat) p in
    let here = send_one-owed sender (nodes i) a stat (payable stat) p wet in
    let later = send_rewards-owed sender nodes a (i + 1) stats p' wet in
    elim (Bool-cases goes_on) [
      | inl on ↦ rw on (λ ended. rw (later ended, here on) (omega int_laws))
      | inr off ↦ rw off (λ c. cc)
    ]

ending_error-owed :
    (a : ℕ) (value : ℤ) (end : Bool × Progress)
    → (end.0 ≡ true → total_to a end.1.transactions ≡ value)
    → let (failure, p) = ending_error end in failure ≡ none → total_to a p.transactions ≡ value
ending_error-owed a value (true, p) h over = h refl
ending_error-owed a value (false, p) h c = cc

send_opened-owed :
    (s : Setting) (opt : DistOption) (a i : ℕ) (stats : List AccountStat) (nonce : ℕ)
    (start : Option DispatchError)
    → opt.dry_run ≡ false
    → let (failure, p) = send_opened s opt i stats nonce start in
      failure ≡ none → total_to a p.transactions ≡ owed (sender_of s opt) a stats
unfolding send_opened start_sending
send_opened-owed s opt a i stats nonce (some e) wet = λ c. cc
send_opened-owed s opt a i stats nonce none wet =
    ending_error-owed a (owed (sender_of s opt) a stats) _ (λ ended.
      send_rewards-owed (sender_of s opt) (s.nodes i) a 0 stats (start_sending nonce) wet ended
      ∙ omega int_laws)

total_to-append :
    (a : ℕ) (txs later : List Transaction)
    → total_to a (txs ++ later) ≡ total_to a txs +ℤ total_to a later
total_to-append a [] later = plus_none (total_to a later)
total_to-append a (tx ∷ txs) later = rw (total_to-append a txs later) (omega int_laws)

record_exchange-loops :
    (s : Setting) (opt : DistOption) (i : ℕ) (exchange : String) (p : Progress) (d : Dispatched)
    → (record_exchange s opt i exchange p d).loops ≡ p ∷ d.loops
unfolding record_exchange
record_exchange-loops s opt i exchange p d =
    elim (Bool-cases (opt.save_db && not (is_nonpositive p.rewards_sended))) [
      | inl e ↦ rw e refl
      | inr e ↦ rw e refl
    ]

some-none : (x : DispatchError) → some x ≡ none → ⊥
some-none x e = cc

stop_at-none :
    (failure : Option DispatchError) (d d' : Dispatched)
    (rest : Outcome (Option DispatchError × Dispatched))
    → stop_at failure d rest ≡ returns (none, d')
    → (failure ≡ none) × (rest ≡ returns (none, d'))
stop_at-none none d d' rest e = (refl, e)
stop_at-none (some x) d d' rest e =
    let bad : some x ≡ none =
      ap (λ (r : Option DispatchError × Dispatched). r.0) (returns-injective e) in
    absurd (some-none x bad)

dispatch_from-owed :
    (s : Setting) (opt : DistOption) (a no_volumes i : ℕ) (exchanges : List String)
    (stats : List (List AccountStat)) (d d' : Dispatched)
    → opt.dry_run ≡ false
    → length exchanges ≡ length stats
    → dispatch_from s opt no_volumes i exchanges stats d ≡ returns (none, d')
    → total_to a (all_sent d'.loops)
      ≡ owed_all (sender_of s opt) a stats +ℤ total_to a (all_sent d.loops)
unfolding dispatch_from send_exchange
dispatch_from-owed s opt a no_volumes i [] [] d d' wet same e =
    let left : d ≡ d' = ap (λ (r : Option DispatchError × Dispatched). r.1) (returns-injective e) in
    ap (λ (x : Dispatched). total_to a (all_sent x.loops)) (sym left)
    ∙ plus_none (total_to a (all_sent d.loops))
dispatch_from-owed s opt a no_volumes i [] (stat ∷ stats) d d' wet same e = absurd (omega arith)
dispatch_from-owed s opt a no_volumes i (exchange ∷ exchanges) [] d d' wet same e =
    absurd (omega arith)
dispatch_from-owed s opt a no_volumes i (exchange ∷ exchanges) (stat ∷ stats) d d' wet same e =
    let start = opening_error s opt no_volumes i exchange in
    let (failure, p) = send_opened s opt i stat d.nonce start in
    let next = record_exchange s opt i exchange p d in
    let (over, run) =
      stop_at-none failure (noted p d) d'
        (dispatch_from s opt no_volumes (i + 1) exchanges stats next) e in
    let here = send_opened-owed s opt a i stat d.nonce start wet over in
    let later =
      dispatch_from-owed s opt a no_volumes (i + 1) exchanges stats next d' wet (omega arith) run in
    later
    ∙ rw
        (
          record_exchange-loops s opt i exchange p d,
          total_to-append a p.transactions (all_sent d.loops),
          here,
        )
        (omega int_laws)

-- A real run that ended without an error has sent each account exactly the rewards that it has in the
-- slices, less those that are not positive or below the threshold of dust.
abbrev pub PaysAll :
    Setting → DistOption → List (List AccountStat) → Option DispatchError × Dispatched → Type 0
PaysAll s opt stats (failure, d) =
    failure ≡ none
    → opt.dry_run ≡ false
    → (a : ℕ) → total_to a (all_sent d.loops) ≡ owed_all (sender_of s opt) a stats

-- dispatchRewards, of a slice of accounts for each exchange.
pub dispatch_rewards-PaysAll :
    (s : Setting) (opt : DistOption) (no_volumes nonce : ℕ) (stats : List (List AccountStat))
    (failure : Option DispatchError) (d : Dispatched)
    → length opt.exchanges ≡ length stats
    → dispatch_rewards s opt no_volumes nonce stats ≡ returns (failure, d)
    → PaysAll s opt stats (failure, d)
unfolding dispatch_rewards start_dispatch
dispatch_rewards-PaysAll s opt no_volumes nonce stats failure d same e over wet a =
    dispatch_from-owed s opt a no_volumes 0 opt.exchanges stats (start_dispatch nonce) d wet same
      (e ∙ ap (λ f. returns (f, d)) over)
    ∙ omega int_laws
