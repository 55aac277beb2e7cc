-- ===== src/Driver/Covered.antt =====
-- The check of the balance before the rewards of a file are sent.
use text.Mathlib.Text.{◌==◌ as str_eq}
use anytoken_distribution.Base.{
  ℕ, ◌+◌, ◌≡◌, ap, subst, String, Option, none, List, [], ◌∷◌, Bool, true, false, ◌&&◌, not, arith,
  ◌⊎◌, inl, inr, if◌then◌else◌,
}
use anytoken_distribution.Int.{ℤ, ◌≤ℤ◌, ltb_ℤ}
use anytoken_distribution.Outcome.{returns, >>=-eq-returns, returns-injective}
use anytoken_distribution.Reward.Stats.{AccountStat, calc_total_reward}
use anytoken_distribution.Distribute.Options.{
  CheckError, DistOption, fails, wrong_token, low_balance, check_sender_reward_token_balance,
}
use anytoken_distribution.Distribute.Checked.{balance_lem, or_none, fails-none}
use anytoken_distribution.Files.Lines.{has_read, get_accounts_and_rewards_from_file}
use anytoken_distribution.Driver.Setting.{Setting}
use anytoken_distribution.Driver.FileSend.{
  Scaling, scale_rewards, check_sender_coin_balance, check_balance, check_accounts,
}

-- What the sender has covers the total of a file, if that lists accounts.
abbrev pub IsCovered : ℤ → List AccountStat → Type 0
IsCovered balance [] = Unit
IsCovered balance (stat ∷ stats) =
    (total : ℤ) × (calc_total_reward (stat ∷ stats) ≡ returns total) × (total ≤ℤ balance)

abbrev pub AllCovered : (ℕ → ℤ) → ℕ → List (List AccountStat) → Type 0
AllCovered balances i [] = Unit
AllCovered balances i (s ∷ stats) = IsCovered (balances i) s × AllCovered balances (i + 1) stats

-- The files can be read and their rewards scaled, to `stats`.
abbrev pub AllRead :
    Setting → DistOption → Scaling → (ℕ → ℤ) → ℕ → List String → List (List AccountStat) → Type 0
AllRead s opt scaling balances i [] [] = Unit
AllRead s opt scaling balances i (name ∷ names) (stat ∷ stats) =
    ((raw : List AccountStat) × (title : String) × (check : Option CheckError)
      × (get_accounts_and_rewards_from_file s.src.ex (s.file name) ≡ has_read (raw, title))
      × (check_accounts opt scaling (balances i) raw ≡ returns (check, stat)))
    × AllRead s opt scaling balances (i + 1) names stats
AllRead s opt scaling balances i _ _ = ⊥

coin_balance_lem :
    (opt : DistOption) (balance : ℤ)
    → check_sender_coin_balance opt balance ≡ none
    → opt.dry_run ≡ false
    → opt.total_value ≤ℤ balance
unfolding check_sender_coin_balance
coin_balance_lem opt balance e wet =
    let low = ltb_ℤ balance opt.total_value && not opt.dry_run in
    let (_, b) =
      or_none (fails (not (str_eq opt.reward_token "")) wrong_token) (fails low low_balance) e in
    let enough = fails-none low low_balance b in ground arith

either_none :
    (b : Bool) (x y : Option CheckError) → (if b then x else y) ≡ none → (x ≡ none) ⊎ (y ≡ none)
either_none true x y e = inl e
either_none false x y e = inr e

check_balance-covers :
    (opt : DistOption) (total balance : ℤ)
    → check_balance opt total balance ≡ none
    → opt.dry_run ≡ false
    → total ≤ℤ balance
unfolding check_balance
check_balance-covers opt total balance e wet =
    let with_total : DistOption = record opt { total_value = total } in
    elim (either_none (str_eq opt.reward_token "") (check_sender_coin_balance with_total balance)
      (check_sender_reward_token_balance with_total balance) e) [
        | inl coins ↦ coin_balance_lem with_total balance coins wet
        | inr token ↦ balance_lem with_total balance token wet
      ]

is_covered :
    (balance total : ℤ) (stats : List AccountStat)
    → calc_total_reward stats ≡ returns total
    → total ≤ℤ balance
    → IsCovered balance stats
is_covered balance total [] e le = tt
is_covered balance total (stat ∷ stats) e le = (total, e, le)

pub check_accounts-covers :
    (opt : DistOption) (scaling : Scaling) (balance : ℤ) (raw stats : List AccountStat)
    → check_accounts opt scaling balance raw ≡ returns (none, stats)
    → opt.dry_run ≡ false
    → IsCovered balance stats
unfolding check_accounts
check_accounts-covers opt scaling balance [] stats e wet =
    let same : [] ≡ stats =
      ap (λ (x : Option CheckError × List AccountStat). x.1) (returns-injective e) in
    subst (IsCovered balance) same tt
check_accounts-covers opt scaling balance (stat ∷ raw) stats e wet =
    let (scaled, _, e1) = >>=-eq-returns (scale_rewards scaling (stat ∷ raw)) _ e in
    let (total, run, e2) = >>=-eq-returns (calc_total_reward scaled) _ e1 in
    let both = returns-injective e2 in
    let same : scaled ≡ stats = ap (λ (x : Option CheckError × List AccountStat). x.1) both in
    let fine : check_balance opt total balance ≡ none =
      ap (λ (x : Option CheckError × List AccountStat). x.0) both in
    subst (IsCovered balance) same
      (is_covered balance total scaled run (check_balance-covers opt total balance fine wet))
