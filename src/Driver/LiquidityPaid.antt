-- ===== src/Driver/LiquidityPaid.antt =====
-- ByLiquidity as a whole: what it sends adds up to the total.
use anytoken_distribution.Base.{
  ℕ, ◌+◌, ◌<◌, ◌≡◌, refl, sym, ap, ◌∙◌, String, Option, none, some, List, [], ◌∷◌, length, All,
  false, arith, word, gt→leb,
}
use anytoken_distribution.Int.{pos, ◌+ℤ◌, is_nonpositive}
use anytoken_distribution.Outcome.{returns}
use anytoken_distribution.Reward.Stats.{AccountStat, calc_weighted_rewards}
use anytoken_distribution.Reward.Fresh.{IsFunded}
use anytoken_distribution.Reward.Slices.{count_all}
use anytoken_distribution.Reward.Weighted.{ArePositive, calc_weighted_rewards-granted}
use anytoken_distribution.Distribute.Options.{by_liquid, DistOption, check_and_init}
use anytoken_distribution.Distribute.Checked.{check_and_init-IsChecked}
use anytoken_distribution.Distribute.Nonces.{total_value, HasRoom}
use anytoken_distribution.Driver.Run.{ends, >>=-eq-ends, if_complete-ends}
use anytoken_distribution.Driver.Setting.{Setting, addresses_of}
use anytoken_distribution.Driver.Accounts.{get_accounts_and_shares}
use anytoken_distribution.Driver.Dispatch.{DispatchError, Dispatched, sender_of}
use anytoken_distribution.Driver.Dispatched.{
  IsDispatched, all_sent, total_sended, total_dust, total_sended-split, dispatch_rewards-Totals,
}
use anytoken_distribution.Driver.Owed.{PaysAll, dispatch_rewards-PaysAll}
use anytoken_distribution.Driver.Granted.{payable_total-granted}
use anytoken_distribution.Driver.Balances.{Stored}
use anytoken_distribution.Driver.Liquidity.{
  calc_sample_height, shares_or_balances, liquidity_accounts, pay_liquidity, by_sampled_liquidity,
  by_liquidity_rewards,
}

length-liquidity_accounts :
    (s : Setting) (opt : DistOption) (files : List String) (stored stored' : Stored)
    (stats : List (List AccountStat))
    → liquidity_accounts s opt files stored ≡ ends (stored', stats)
    → length stats ≡ length opt.exchanges
unfolding liquidity_accounts
length-liquidity_accounts s opt files stored stored' stats h =
    let (shares, _, next) = >>=-eq-ends (get_accounts_and_shares s opt files) _ h in
    let (found, _, rest) = >>=-eq-ends (shares_or_balances s opt files stored shares) _ next in
    if_complete-ends found.1 stored' (length opt.exchanges) found.0 stats rest

-- CalcWeightedRewards and dispatchRewards, one after the other.
pay_liquidity-granted :
    (s : Setting) (opt : DistOption) (t nonce : ℕ) (stats : List (List AccountStat))
    → opt.total_value ≡ pos t
    → 0 < t
    → 0 < length stats
    → All IsFunded stats
    → ArePositive (some opt.weights) stats
    → length stats ≡ length opt.exchanges
    → nonce + count_all stats < word
    → ((i j : ℕ) → HasRoom (count_all stats) (s.nodes i j))
    → (failure : Option DispatchError) × (d : Dispatched) × (pay_liquidity s opt nonce stats
        ≡ ends (failure, d))
      × IsDispatched s opt 0 d
      × (failure ≡ none → total_sended d.loops ≡ pos t)
      × ((stats' : List (List AccountStat)) × (calc_weighted_rewards stats
              (some opt.total_value)
              (some opt.weights)
            ≡ returns stats')
          × PaysAll s opt stats' (failure, d))
unfolding pay_liquidity
pay_liquidity-granted s opt t nonce [] ht pos_t some_stat funded weights complete room hn =
    absurd (omega arith)
pay_liquidity-granted s opt t nonce (stat ∷ stats) ht pos_t some_stat funded weights complete room
      hn =
    let (stats', run, got, settled, long, counted) =
      calc_weighted_rewards-granted t stat stats (some opt.weights) pos_t funded weights in
    let (failure, d, sent, dispatched, sums) =
      dispatch_rewards-Totals s opt 0 nonce stats' (omega (arith, long)) (omega (arith, counted))
        (λ i j m e. omega (arith, hn i j m e, counted)) in
    let weighted : calc_weighted_rewards (stat ∷ stats) (some opt.total_value) (some opt.weights)
        ≡ returns stats' =
      ap (λ x. calc_weighted_rewards (stat ∷ stats) (some x) (some opt.weights)) ht ∙ run in
    (
      failure,
      d,
      rw (weighted, sent) refl,
      dispatched,
      (λ over. rw (sums over, payable_total-granted stats' settled, got) refl),
      (
        stats',
        weighted,
        dispatch_rewards-PaysAll s opt 0 nonce stats' failure d (omega (arith, long)) sent,
      ),
    )

-- The calls of ByLiquidity in their order.
by_liquidity_run :
    (s : Setting) (options : DistOption) (files : List String) (stored stored' : Stored)
    (sample nonce : ℕ) (stats : List (List AccountStat)) (failure : Option DispatchError)
    (d : Dispatched)
    → is_nonpositive options.total_value ≡ false
    → calc_sample_height s (record options { by_what = by_liquid }) ≡ ends sample
    → let opt = record options { by_what = by_liquid; sample_height = sample } in
      check_and_init (addresses_of s.src) opt s.chain.sender_balance s.chain.latest_height ≡ none
      → liquidity_accounts s opt files stored ≡ ends (stored', stats)
      → pay_liquidity s opt nonce stats ≡ ends (failure, d)
      → by_liquidity_rewards s options files stored nonce ≡ ends (stored', failure, d)
unfolding by_liquidity_rewards by_sampled_liquidity
by_liquidity_run s options files stored stored' sample nonce stats failure d positive sampled checks
      found paid =
    rw (positive, sampled, checks, found, paid) refl

-- ByLiquidity, for a total of `t`, a sample height that is found, options that pass the checks and
-- end below 2^64, and accounts that have been found with positive shares and no rewards, some in
-- each exchange, and as long as the nonces leave room for all accounts below 2^64: it ends with what
-- dispatchRewards returns; no two transactions have the same nonce; and without an error, what it
-- has counted as sent is the total, exactly: unless it is a dry run, the value of the transactions
-- that were sent and the dust; and then each account has been sent exactly what CalcWeightedRewards
-- has given it, less the rewards that are not positive or below the threshold of dust.
pub by_liquidity_rewards-granted :
    (s : Setting) (options : DistOption) (files : List String) (stored stored' : Stored)
    (t sample nonce : ℕ) (stats : List (List AccountStat))
    → options.total_value ≡ pos t
    → 0 < t
    → options.end_height < word
    → calc_sample_height s (record options { by_what = by_liquid }) ≡ ends sample
    → let opt = record options { by_what = by_liquid; sample_height = sample } in
      check_and_init (addresses_of s.src) opt s.chain.sender_balance s.chain.latest_height ≡ none
      → liquidity_accounts s opt files stored ≡ ends (stored', stats)
      → All IsFunded stats
      → nonce + count_all stats < word
      → ((i j : ℕ) → HasRoom (count_all stats) (s.nodes i j))
      → (failure : Option DispatchError) × (d : Dispatched) × (by_liquidity_rewards s options files
            stored nonce
          ≡ ends (stored', failure, d))
        × IsDispatched s opt 0 d
        × (failure ≡ none → total_sended d.loops ≡ pos t)
        × (failure ≡ none
            → opt.dry_run ≡ false
            → total_value (all_sent d.loops) +ℤ total_dust d.loops ≡ pos t)
        × ((stats' : List (List AccountStat)) × (calc_weighted_rewards stats
                (some opt.total_value)
                (some opt.weights)
              ≡ returns stats')
            × PaysAll s opt stats' (failure, d))
by_liquidity_rewards-granted s options files stored stored' t sample nonce stats ht pos_t small
      sampled checks found funded room hn =
    let opt : DistOption = record options { by_what = by_liquid; sample_height = sample } in
    let checked =
      check_and_init-IsChecked (addresses_of s.src) opt s.chain.sender_balance s.chain.latest_height
        refl small checks in
    let complete = length-liquidity_accounts s opt files stored stored' stats found in
    let (failure, d, run, dispatched, sums, pays) =
      pay_liquidity-granted s opt t nonce stats ht pos_t
        (omega (arith, complete, checked.some_exchange)) funded
        (checked.positive, omega (arith, checked.weighted, complete)) complete room hn in
    (
      failure,
      d,
      by_liquidity_run s options files stored stored' sample nonce stats failure d
          (rw ht (gt→leb t 0 (omega arith))) sampled checks found run,
      dispatched,
      sums,
      (λ over wet.
          sym (total_sended-split (sender_of s opt) d.loops wet dispatched.accounted) ∙ sums over),
      pays,
    )
