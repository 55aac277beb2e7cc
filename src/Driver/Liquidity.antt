-- ===== src/Driver/Liquidity.antt =====
-- distributer/byliquidity.go: ByLiquidity, from the balances of the accounts to the rewards that are
-- dispatched.
use anytoken_distribution.Base.{
  ℕ, String, Option, some, List, [], ◌∷◌, length, ◌||◌, not, ◌==◌, if◌then◌else◌,
}
use anytoken_distribution.Int.{is_nonpositive}
use anytoken_distribution.Reward.Stats.{AccountStat, calc_weighted_rewards}
use anytoken_distribution.Distribute.Options.{by_liquid, DistOption, check_and_init}
use anytoken_distribution.Driver.Run.{
  Run, ends, fails, panics, run_of, if_checked, if_complete, ◌>>=◌, total_rewards_is_zero,
}
use anytoken_distribution.Driver.Setting.{Setting, addresses_of, calc_random_sample_height}
use anytoken_distribution.Driver.Dispatch.{DispatchError, Dispatched, dispatch_rewards}
use anytoken_distribution.Driver.Accounts.{get_accounts_and_shares, get_accounts}
use anytoken_distribution.Driver.Balances.{Stored, get_liquidity_balances_of_exchange}

-- CalcSampleHeight: the sample height afterwards.
unfoldable pub calc_sample_height : Setting → DistOption → Run ℕ
calc_sample_height s opt =
    if not (opt.sample_height == 0) || not opt.archive_mode
    then ends opt.sample_height
    else calc_random_sample_height s opt.start_height opt.end_height

-- getLiquidityBalances, with the stored balances; it panics when there are fewer lists of accounts
-- than exchanges.
unfoldable pub get_liquidity_balances :
    Setting
    → DistOption
    → List String
    → List (List ℕ)
    → Stored
    → Run (List (List AccountStat) × Stored)
get_liquidity_balances s opt [] accounts stored = ends ([], stored)
get_liquidity_balances s opt (exchange ∷ exchanges) [] stored = panics
get_liquidity_balances s opt (exchange ∷ exchanges) (accs ∷ accounts) stored =
    let (stats, complete, stored') =
      get_liquidity_balances_of_exchange s opt.archive_mode opt.sample_height exchange accs
        stored in
    (do
      (rest, stored'') ← get_liquidity_balances s opt exchanges accounts stored'
      ends (stats ∷ rest, stored''))

-- The balances where no files give the shares.
unfoldable pub shares_or_balances :
    Setting
    → DistOption
    → (files : List String) → Stored
    → List (List AccountStat)
    → Run (List (List AccountStat) × Stored)
unfolding get_liquidity_balances
shares_or_balances s opt files stored [] = do
  accounts ← get_accounts s opt.exchanges files
  get_liquidity_balances s opt opt.exchanges accounts stored
shares_or_balances s opt files stored (stats ∷ rest) = ends (stats ∷ rest, stored)

-- The accounts of ByLiquidity, with the stored balances.
unfoldable pub liquidity_accounts :
    Setting → DistOption → (files : List String) → Stored → Run (Stored × List (List AccountStat))
unfolding shares_or_balances
liquidity_accounts s opt files stored = do
  shares ← get_accounts_and_shares s opt files
  (stats, stored') ← shares_or_balances s opt files stored shares
  if_complete stored' (length opt.exchanges) stats

-- What ByLiquidity does with the accounts once they are complete.
unfoldable pub pay_liquidity :
    Setting
    → DistOption
    → (nonce : ℕ) → List (List AccountStat)
    → Run (Option DispatchError × Dispatched)
pay_liquidity s opt nonce stats = do
  stats' ← run_of (calc_weighted_rewards stats (some opt.total_value) (some opt.weights))
  run_of (dispatch_rewards s opt 0 nonce stats')

-- ByLiquidity after CalcSampleHeight.
unfoldable pub by_sampled_liquidity :
    Setting
    → DistOption
    → (files : List String) → Stored
    → (nonce : ℕ) → Run (Stored × Option DispatchError × Dispatched)
unfolding liquidity_accounts pay_liquidity
by_sampled_liquidity s opt files stored nonce =
    if_checked
      (check_and_init (addresses_of s.src) opt s.chain.sender_balance s.chain.latest_height)
      (do
        (stored', stats) ← liquidity_accounts s opt files stored
        (failure, d) ← pay_liquidity s opt nonce stats
        ends (stored', failure, d))

-- ByLiquidity: the stored balances, the error of dispatchRewards, and what it has sent. A nil total
-- is 0.
unfoldable pub by_liquidity_rewards :
    Setting
    → DistOption
    → (files : List String) → Stored
    → (nonce : ℕ) → Run (Stored × Option DispatchError × Dispatched)
unfolding by_sampled_liquidity calc_sample_height
by_liquidity_rewards s options files stored nonce =
    let opt = record options { by_what = by_liquid } in
    if is_nonpositive opt.total_value then fails total_rewards_is_zero else do
      sample_height ← calc_sample_height s opt
      by_sampled_liquidity s (record opt { sample_height = sample_height }) files stored nonce
