-- ===== src/Driver/Run.antt =====
-- How a run of distributer/ ends: with a value, with one of the errors of distribute.go, with a
-- run-time panic, or not yet, where it waits for the node or the fuel is used up.
use anytoken_distribution.Base.{
  ℕ, Option, none, some, List, length, ◌≡◌, refl, ap, ◌==◌, ==_iff, Bool-cases, inl, inr,
  if◌then◌else◌,
}
use anytoken_distribution.Reward.Stats.{AccountStat}
use anytoken_distribution.Outcome.{Outcome, returns}
use anytoken_distribution.Distribute.Options.{CheckError}
use anytoken_distribution.Files.Lines.{FileResult, failed, has_read}

pub data RunError : Type 0 where
  total_rewards_is_zero check_option_failed get_account_list_failed : RunError
  get_accounts_rewards_failed get_accounts_shares_failed accounts_not_complete : RunError

pub data Run (A : Type 0) : Type 0 where
  ends : A → Run A
  fails : RunError → Run A
  panics waits : Run A

infixl 5 ◌>>=◌
abbrev pub ◌>>=◌ : {A B : Type 0} → Run A → (A → Run B) → Run B
ends a >>= f = f a
fails e >>= f = fails e
panics >>= f = panics
waits >>= f = waits

abbrev pub run_of : {A : Type 0} → Outcome A → Run A
run_of (returns a) = ends a
run_of Outcome.panics = panics

abbrev pub ended : {A : Type 0} → Option A → Run A
ended none = waits
ended (some a) = ends a

-- An option that fails its checks ends the run.
abbrev pub if_checked : {A : Type 0} → Option CheckError → Run A → Run A
if_checked (some e) run = fails check_option_failed
if_checked none run = run

-- The accounts of a run, with what else it has found, if there are as many slices as exchanges.
abbrev pub if_complete :
    {A : Type 0} → A → (count : ℕ) → List (List AccountStat) → Run (A × List (List AccountStat))
if_complete a count stats =
    if length stats == count then ends (a, stats) else fails accounts_not_complete

-- An error of a file is answered with one of a run.
abbrev pub read_of : {A : Type 0} → RunError → FileResult A → Run A
read_of e (failed _) = fails e
read_of e (has_read a) = ends a

-- A bind that ends has a first part that ends.
pub >>=-eq-ends :
    {A B : Type 0} (m : Run A) (f : A → Run B) {b : B}
    → (m >>= f) ≡ ends b
    → (a : A) × (m ≡ ends a) × (f a ≡ ends b)
>>=-eq-ends (ends a) f h = (a, refl, h)
>>=-eq-ends (fails e) f h = cc
>>=-eq-ends panics f h = cc
>>=-eq-ends waits f h = cc

abbrev value_or : {A : Type 0} → A → Run A → A
value_or a (ends b) = b
value_or a _ = a

pub ends-injective : {A : Type 0} {a b : A} → ends a ≡ ends b → a ≡ b
ends-injective {A} {a} e = ap (value_or a) e

pub if_complete-ends :
    {A : Type 0} (a a' : A) (count : ℕ) (stats stats' : List (List AccountStat))
    → if_complete a count stats ≡ ends (a', stats')
    → length stats' ≡ count
if_complete-ends {A} a a' count stats stats' h = elim (Bool-cases (length stats == count)) [
  | inl e ↦
      let same : ends (a, stats) ≡ ends (a', stats') = rw e at h in
      let lists : stats ≡ stats' =
        ap (λ (x : A × List (List AccountStat)). x.1) (ends-injective same) in
      rw (← lists) ((==_iff _ _).0 e)
  | inr e ↦
      let no : Run (A × List (List AccountStat)) = fails accounts_not_complete in
      let never : no ≡ ends (a', stats') = rw e at h in cc
]
