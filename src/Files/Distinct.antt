-- ===== src/Files/Distinct.antt =====
-- The accounts of a file: each once, and none that is excluded.
use anytoken_distribution.Base.{
  ℕ, ◌≡◌, refl, ap, sym, ◌∙◌, subst, String, some, List, [], ◌∷◌, ◌++◌, contains, contains-append,
  Distinct, or_false, ==_iff, Bool, true, false, not, ◌||◌, ◌==◌, if◌then◌else◌, arith, Bool-cases,
  inl, inr,
}
use anytoken_distribution.Config.Lookups.{is_excluded_reward_account}
use anytoken_distribution.Volumes.Find.{Excluding}
use anytoken_distribution.Files.Lines.{
  wrong_address, skipped, rejected, accepted, FileResult, failed, has_read, is_commented_line,
}
use anytoken_distribution.Files.Accounts.{
  account_line, with_line, go_through, account_lines, get_accounts_from_file,
}

-- A line that names an account: no comment, and of an account that is not excluded.
abbrev pub names : Excluding → ℕ → String → Bool
names ex a raw =
    let line = ex.lib.trim_space raw in
    if is_commented_line line
    then false
    else if is_excluded_reward_account ex.lib ex.exchanges ex.all (ex.lib.hex_to_address line)
    then false
    else a == ex.lib.hex_to_address line

abbrev pub any_names : Excluding → ℕ → List String → Bool
any_names ex a [] = false
any_names ex a (raw ∷ lines) = names ex a raw || any_names ex a lines

accounts_or : List ℕ → FileResult (List ℕ) → List ℕ
accounts_or xs (failed e) = xs
accounts_or xs (has_read ys) = ys

has_read-injective : (xs ys : List ℕ) → has_read xs ≡ has_read ys → xs ≡ ys
unfolding accounts_or
has_read-injective xs ys e = ap (accounts_or xs) e

or-none : (b : Bool) → b ≡ (b || false)
or-none true = refl
or-none false = refl

other_way : (x y : ℕ) → (x == y) ≡ false → (y == x) ≡ false
other_way x y e = ground (arith, e)

Distinct-append :
    (x : ℕ) (xs : List ℕ) → contains x xs ≡ false → Distinct xs → Distinct (xs ++ x ∷ [])
Distinct-append x [] new distinct = (refl, tt)
Distinct-append x (y ∷ ys) new (absent, distinct) =
    let (differs, later) = or_false (x == y) (contains x ys) new in
    (
      rw (contains-append y ys (x ∷ []), absent, other_way x y differs) refl,
      Distinct-append x ys later distinct,
    )

known :
    (a account : ℕ) (xs : List ℕ)
    → contains account xs ≡ true
    → contains a xs ≡ (contains a xs || a == account)
known a account xs e = elim (Bool-cases (a == account)) [
  | inl same ↦ rw (same, (==_iff a account).0 same, e) refl
  | inr differs ↦ rw differs (or-none (contains a xs))
]

added :
    (a account : ℕ) (xs : List ℕ)
    → contains a (xs ++ account ∷ []) ≡ (contains a xs || a == account)
added a account xs =
    contains-append a xs (account ∷ [])
    ∙ ap (λ b. contains a xs || b) (sym (or-none (a == account)))

-- A line, by what its tests say: the accounts stay distinct, and gain the one that it names.
abbrev Keeps : (named : ℕ → Bool) → List ℕ → List ℕ → Type 0
Keeps named accounts accounts' =
    Distinct accounts' × ((a : ℕ) → contains a accounts' ≡ (contains a accounts || named a))

Keeps-all :
    (accounts accounts' : List ℕ)
    → Distinct accounts
    → accounts ≡ accounts'
    → Keeps (λ a. false) accounts accounts'
Keeps-all accounts accounts' distinct e =
    subst (Keeps (λ a. false) accounts) e (distinct, λ a. or-none (contains a accounts))

tests-Keeps :
    (comment hex excluded : Bool) (account : ℕ) (accounts accounts' : List ℕ)
    → Distinct accounts
    → with_line
        (if comment
          then skipped
          else if not hex
          then rejected wrong_address
          else if excluded
          then skipped
          else if contains account accounts
          then skipped
          else accepted account)
        accounts
      ≡ has_read accounts'
    → Keeps
        (λ a. if comment then false else if excluded then false else a == account)
        accounts
        accounts'
tests-Keeps true hex excluded account accounts accounts' distinct run =
    Keeps-all accounts accounts' distinct (has_read-injective _ _ run)
tests-Keeps false false excluded account accounts accounts' distinct run = cc
tests-Keeps false true true account accounts accounts' distinct run =
    Keeps-all accounts accounts' distinct (has_read-injective _ _ run)
tests-Keeps false true false account accounts accounts' distinct run =
    elim (Bool-cases (contains account accounts)) [
      | inl e ↦
          subst (Keeps (λ a. a == account) accounts) (has_read-injective _ _ (rw e at run))
            (distinct, λ a. known a account accounts e)
      | inr e ↦
          subst (Keeps (λ a. a == account) accounts) (has_read-injective _ _ (rw e at run))
            (Distinct-append account accounts e distinct, λ a. added a account accounts)
    ]

or_assoc : (a b c : Bool) → ((a || b) || c) ≡ (a || (b || c))
or_assoc true b c = refl
or_assoc false b c = refl

go_through-has_read :
    (r : FileResult (List ℕ)) (f : List ℕ → FileResult (List ℕ)) (ys : List ℕ)
    → go_through r f ≡ has_read ys
    → (xs : List ℕ) × (r ≡ has_read xs) × (f xs ≡ has_read ys)
go_through-has_read (failed e) f ys run = cc
go_through-has_read (has_read xs) f ys run = (xs, refl, run)

account_lines-Keeps :
    (ex : Excluding) (lines : List String) (accounts accounts' : List ℕ)
    → Distinct accounts
    → account_lines ex lines accounts ≡ has_read accounts'
    → Keeps (λ a. any_names ex a lines) accounts accounts'
unfolding account_lines account_line
account_lines-Keeps ex [] accounts accounts' distinct run =
    Keeps-all accounts accounts' distinct (has_read-injective _ _ run)
account_lines-Keeps ex (raw ∷ lines) accounts accounts' distinct run =
    let (mid, first, later) =
      go_through-has_read (with_line (account_line ex raw accounts) accounts)
        (λ xs. account_lines ex lines xs) accounts' run in
    let line = ex.lib.trim_space raw in
    let account = ex.lib.hex_to_address line in
    let (distinct1, members1) =
      tests-Keeps (is_commented_line line) (ex.lib.is_hex_address line)
        (is_excluded_reward_account ex.lib ex.exchanges ex.all account) account accounts mid
        distinct first in
    let (distinct2, members2) = account_lines-Keeps ex lines mid accounts' distinct1 later in
    (
      distinct2,
      λ a.
          members2 a
          ∙ ap (λ b. b || any_names ex a lines) (members1 a)
          ∙ or_assoc (contains a accounts) (names ex a raw) (any_names ex a lines),
    )

-- getAccountsFromFile, where it returns accounts: no account twice, and exactly the accounts that a
-- line names which is no comment, if they are not excluded.
pub get_accounts_from_file-Distinct :
    (ex : Excluding) (lines : List String) (accounts : List ℕ)
    → get_accounts_from_file ex (some lines) ≡ has_read accounts
    → Distinct accounts × ((a : ℕ) → contains a accounts ≡ any_names ex a lines)
unfolding get_accounts_from_file
get_accounts_from_file-Distinct ex lines accounts run =
    account_lines-Keeps ex lines [] accounts tt run
