-- ===== src/Volumes/Granted.antt =====
-- GetAccountsAndRewardsFromDB as a whole: what it pays and what it keeps back.
use mathlib.Core.List.{Permᴰ}
use native.Mathlib.Nat.{mul-div_cancel}
use anytoken_distribution.Base.{
  ℕ, suc, ◌+◌, ◌-◌, ◌*◌, ◌/◌, ◌≤◌, ◌<◌, ◌≡◌, sym, ap, ◌∙◌, subst, refl, String, some, List, [], ◌∷◌,
  All, length, false, arith, word, gt→leb, div_pos, ◌==◌, sub64,
}
use anytoken_distribution.Int.{pos, ◌+ℤ◌, ◌/ℤ◌, int_laws}
use anytoken_distribution.Outcome.{returns}
use anytoken_distribution.Reward.Stats.{AccountStat}
use anytoken_distribution.Reward.Fresh.{amount, granted}
use anytoken_distribution.Distribute.NoVolumes.{NoVolumes, update_no_volumes}
use anytoken_distribution.Receipts.Records.{MgoVolumeHistory}
use anytoken_distribution.Volumes.Find.{with_shares, convert_to_sorted_slice}
use anytoken_distribution.Volumes.Rearranged.{total, total-Permᴰ, tally-Permᴰ, All-Permᴰ}
use anytoken_distribution.Volumes.Collect.{AreSingle, entry_at}
use anytoken_distribution.Volumes.Found.{Stores}
use anytoken_distribution.Volumes.Rewards.{Source, reward_steps, get_accounts_and_rewards_from_db}
use anytoken_distribution.Volumes.Paid.{IsPaid}
use anytoken_distribution.Volumes.Steps.{missed_steps}
use anytoken_distribution.Volumes.StepLoop.{reward_steps-Steps}

granted-total :
    (stats : List AccountStat) → granted stats ≡ total (λ stat. amount stat.reward) stats
granted-total [] = refl
granted-total (stat ∷ stats) = rw (granted-total stats) refl

with_shares-paid : (stats : List AccountStat) → All IsPaid stats → with_shares stats ≡ stats
unfolding with_shares
with_shares-paid [] all = refl
with_shares-paid (stat ∷ stats) (here, all) =
    rw (here.shared, gt→leb (suc here.units) 0 (omega arith), with_shares-paid stats all) refl

gt→==_false : (n : ℕ) → 0 < n → (n == 0) ≡ false
gt→==_false n h = ground arith

none-AreSingle : AreSingle []
none-AreSingle a = omega arith

pos_quotient : (t n : ℕ) → 0 < n → n ≤ t → (r : ℕ) × (t / n ≡ suc r)
pos_quotient t n hn h = (t / n - 1, omega (arith, div_pos t n hn h))

-- The whole, once the loop has returned.
run_whole :
    (fuel : ℕ) (src : Source) (t : ℕ) (exchange : String) (start end step n r : ℕ)
    (seen : NoVolumes) (fins : List AccountStat) (missed : List ℕ)
    → sub64 end start / suc step ≡ n
    → t / n ≡ suc r
    → 0 < n
    → reward_steps fuel src (pos (suc r)) exchange start end (suc step) ([], [])
      ≡ returns (some (fins, missed))
    → get_accounts_and_rewards_from_db fuel src (pos t) exchange start end (suc step) seen
      ≡ returns (some (convert_to_sorted_slice src.db.sort fins, update_no_volumes seen missed))
unfolding get_accounts_and_rewards_from_db ◌/ℤ◌
run_whole fuel src t exchange start end step n r seen fins missed steps quotient some_step run =
    rw (steps, quotient, gt→==_false n some_step, run) refl

-- GetAccountsAndRewardsFromDB in `n` steps that fill the range, over a stored table and for a total
-- of a unit for each step at least: with fuel for the steps, it returns; each account has one entry,
-- with a positive share and a reward that is not negative; the rewards add up to the reward of a
-- step (the total divided by `n`) for each step in which some account has volumes, so that what is
-- kept back is exactly the rewards of the steps without; and these are passed to updateNoVolumes.
-- Stakes change how the rewards are shared, and nothing of that.
pub get_accounts_and_rewards_from_db-granted :
    (fuel : ℕ) (src : Source) (stored : List MgoVolumeHistory) (t : ℕ) (exchange : String)
    (start end step n : ℕ) (seen : NoVolumes)
    → Stores stored src.db
    → n < fuel
    → end ≡ start + n * suc step
    → end < word
    → 0 < n
    → n ≤ t
    → let missed = missed_steps src exchange start (suc step) n in
      (stats : List AccountStat) × (get_accounts_and_rewards_from_db fuel src
          (pos t)
          exchange
          start
          end
          (suc step)
          seen
        ≡ returns (some (stats, update_no_volumes seen missed)))
      × All IsPaid stats
      × AreSingle stats
      × (granted stats +ℤ pos (length missed * (t / n)) ≡ pos (n * (t / n)))
unfolding convert_to_sorted_slice
get_accounts_and_rewards_from_db-granted fuel src stored t exchange start end step n seen stores
      less e small some_step enough =
    let (r, positive) = pos_quotient t n some_step enough in
    let steps : sub64 end start / suc step ≡ n =
      ap (λ (m : ℕ). m / suc step) (omega (arith, e, small)) ∙ mul-div_cancel n (omega arith) in
    let missed = missed_steps src exchange start (suc step) n in
    let (fins, run, all, single, sums) =
      reward_steps-Steps src stored exchange r fuel start end step n [] [] stores less e small tt
        none-AreSingle in
    let sorted : Permᴰ fins (src.db.sort (with_shares fins)) =
      subst (λ kept. Permᴰ fins (src.db.sort kept)) (sym (with_shares-paid fins all))
        (stores.sorts fins) in
    let same : granted fins ≡ granted (src.db.sort (with_shares fins)) =
      granted-total fins
      ∙ total-Permᴰ (λ stat. amount stat.reward) sorted
      ∙ sym (granted-total _) in
    (
      src.db.sort (with_shares fins),
      run_whole fuel src t exchange start end step n r seen fins missed steps positive some_step
          run,
      All-Permᴰ IsPaid sorted all,
      λ a. subst (λ m. m ≤ 1) (tally-Permᴰ (entry_at a) sorted) (single a),
      rw (positive, ← same) (sums ∙ omega int_laws),
    )
