-- ===== src/Distribute/FirstBlock.antt =====
-- FindBlockByTimestamp finds the first block that is not older than the timestamp.
use anytoken_distribution.Base.{
  ℕ, zero, suc, ◌+◌, ◌-◌, ◌/◌, ◌≤◌, ◌<◌, ◌^◌, ◌≡◌, refl, Option, none, some, List, [], ◌∷◌, true,
  false, ltb, ◌==◌, add64, sub64, word, arith, Bool-cases, inl, inr, ltb→lt, ltb→ge, ◌⊎◌,
  compare-cases, ==_iff,
}
use native.Mathlib.Nat.{div-le_self}
use native.Mathlib.Decide.{dec_lt}
use anytoken_distribution.Distribute.Search.{
  Backed, exact, between, binary_search, wait_block, step_back, back_off, search_from, find_from,
  find_block_by_timestamp,
}

-- Each block is later than those before it.
abbrev pub Increasing : (ℕ → ℕ) → Type 0
Increasing time = (i j : ℕ) → i < j → time i < time j

-- What the node reports as its latest block stays in the range of the code's integers, and below
-- the fuel.
abbrev pub AreSmall : (ℕ → ℕ) → ℕ → List ℕ → Type 0
AreSmall time fuel [] = Unit
AreSmall time fuel (n ∷ latest) =
    ((n < 2 ^ 63) × (time n < word - 1) × (n < fuel)) × AreSmall time fuel latest

-- One of the node's answers is a block that is not older than the timestamp.
abbrev pub Arrives : (ℕ → ℕ) → ℕ → List ℕ → Type 0
Arrives time timestamp [] = ⊥
Arrives time timestamp (n ∷ latest) = (timestamp ≤ time n) ⊎ Arrives time timestamp latest

-- `r` is the first block at or after the timestamp.
abbrev pub IsFirst : (ℕ → ℕ) → ℕ → ℕ → Type 0
IsFirst time timestamp r = (timestamp ≤ time r) × ((m : ℕ) → m < r → time m < timestamp)

pos_of_ne : (n : ℕ) → (n == 0) ≡ false → 0 < n
pos_of_ne n h = ground arith

module _ (time : ℕ → ℕ) (timestamp : ℕ) (increasing : Increasing time) where
  earlier : (n : ℕ) → time n < timestamp → (m : ℕ) → m < n + 1 → time m < timestamp
  earlier n h m lt = elim (dec_lt m n) [
    | yes before ↦ omega (arith, increasing m n before)
    | no same ↦ let e : m ≡ n = omega arith in rw e h
  ]

  at_most : (m n : ℕ) → m ≤ n → time m ≤ time n
  at_most m n le = elim (dec_lt m n) [
    | yes before ↦ omega (arith, increasing m n before)
    | no same ↦ let e : m ≡ n = omega arith in rw e (omega arith)
  ]

  at_or_after : (n : ℕ) → time n ≡ timestamp → IsFirst time timestamp n
  at_or_after n same = (omega arith, λ m h. omega (arith, increasing m n h))

  binary_search-IsFirst :
      (fuel high low : ℕ)
      → low ≤ high
      → high < 2 ^ 63
      → high < low + fuel
      → timestamp ≤ time high
      → ((m : ℕ) → m < low → time m < timestamp)
      → (r : ℕ) × (binary_search time timestamp fuel high low ≡ some r)
        × (r ≤ high)
        × IsFirst time timestamp r
  unfolding binary_search
  binary_search-IsFirst zero high low le small enough top below = absurd (omega arith)
  binary_search-IsFirst (suc fuel) high low le small enough top below =
      elim (Bool-cases (ltb low high)) [
        | inl e ↦
            let open_range = ltb→lt low high e in
            let mid = add64 low high / 2 in
            let from : low ≤ mid = omega arith in
            let to : mid < high = omega arith in
            elim (compare-cases (time mid) timestamp) [
              | inl (c, before) ↦
                  let (r, run, limit, first) =
                    binary_search-IsFirst fuel high (add64 mid 1) (omega arith) small (omega arith)
                      top (λ m h. earlier mid before m (omega arith)) in
                  (r, rw (e, c, binary_search) run, limit, first)
              | inr (inl (c, same)) ↦
                  (mid, rw (e, c, binary_search), omega arith, at_or_after mid same)
              | inr (inr (c, after)) ↦
                  let (r, run, limit, first) =
                    binary_search-IsFirst fuel mid low from (omega arith) (omega arith)
                      (omega arith) below in
                  (r, rw (e, c, binary_search) run, omega arith, first)
            ]
        | inr e ↦
            let same : low ≡ high = omega (arith, ltb→ge low high e) in
            (low, rw (e, binary_search), le, (rw same top, below))
      ]

  step_back_bounds :
      (average number : ℕ)
      → timestamp < time number
      → time number < word - 1
      → 0 < number
      → step_back time timestamp average number < number
  unfolding step_back
  step_back_bounds average number after small h =
      ground (arith, div-le_self (sub64 (time number) timestamp) average)

  -- What the second loop ends with, below a block that is not older than the timestamp.
  abbrev IsBacked : ℕ → Option Backed → Type 0
  IsBacked top none = ⊥
  IsBacked top (some (exact n)) = (n ≤ top) × IsFirst time timestamp n
  IsBacked top (some (between high low)) =
      (low ≤ high) × (high ≤ top) × (timestamp ≤ time high) × (time low < timestamp)

  back_off-IsBacked :
      (fuel average number high top : ℕ)
      → number < fuel
      → number ≤ high
      → high ≤ top
      → timestamp ≤ time high
      → time top < word - 1
      → IsBacked top (back_off time timestamp fuel average number high)
  unfolding back_off
  back_off-IsBacked zero average number high top enough le lt after small = absurd (omega arith)
  back_off-IsBacked (suc fuel) average number high top enough le lt after small =
      elim (compare-cases (time number) timestamp) [
        | inl (c, before) ↦ rw (c, back_off) (le, lt, after, before)
        | inr (inl (c, same)) ↦ rw (c, back_off) (omega arith, at_or_after number same)
        | inr (inr (c, later)) ↦ elim (Bool-cases (number == 0)) [
          | inl genesis ↦
              let zero_number = (==_iff number 0).0 genesis in
              rw (c, genesis, back_off) (omega arith, (omega arith, λ m h. absurd (omega arith)))
          | inr positive ↦
              let down =
                step_back_bounds average number later (omega (arith, at_most number top))
                  (pos_of_ne number positive) in
              rw (c, positive, back_off)
                (back_off-IsBacked fuel average (step_back time timestamp average number) number top
                  (omega arith) (omega arith) (omega arith) (omega arith) small)
        ]
      ]

  still_to_come :
      (n : ℕ) (latest : List ℕ)
      → ltb (time n) timestamp ≡ true
      → Arrives time timestamp (n ∷ latest)
      → Arrives time timestamp latest
  still_to_come n latest e (inl now) = absurd (omega (arith, ltb→lt _ _ e))
  still_to_come n latest e (inr later) = later

  wait_block_lem :
      (fuel : ℕ) (latest : List ℕ)
      → AreSmall time fuel latest
      → Arrives time timestamp latest
      → (n : ℕ) × (wait_block time timestamp latest ≡ some n)
        × (timestamp ≤ time n)
        × (n < 2 ^ 63)
        × (time n < word - 1)
        × (n < fuel)
  unfolding wait_block
  wait_block_lem fuel [] small arrives = absurd arrives
  wait_block_lem fuel (n ∷ latest) (here, later) arrives =
      elim (Bool-cases (ltb (time n) timestamp)) [
        | inl e ↦
            let (k, run, after, number, at, enough) =
              wait_block_lem fuel latest later (still_to_come n latest e arrives) in
            (k, rw e run, after, number, at, enough)
        | inr e ↦ (n, rw e, ltb→ge _ _ e, here.0, here.1, here.2)
      ]

  search_from-IsFirst :
      (fuel top : ℕ) (b : Option Backed)
      → top < 2 ^ 63
      → top < fuel
      → IsBacked top b
      → (r : ℕ) × (search_from time timestamp fuel b ≡ some r) × IsFirst time timestamp r
  unfolding search_from
  search_from-IsFirst fuel top none small enough backed = absurd backed
  search_from-IsFirst fuel top (some (exact n)) small enough (le, first) = (n, refl, first)
  search_from-IsFirst fuel top (some (between high low)) small enough (le, limit, after, before) =
      let (r, run, _, first) =
        binary_search-IsFirst fuel high low le (omega arith) (omega arith) after
          (λ m h. earlier low before m (omega arith)) in
      (r, run, first)

  -- FindBlockByTimestamp, where each block is later than those before it, once the node has
  -- reported a block that is not older than the timestamp, for block numbers below 2^63 and below
  -- the fuel, and times below 2^64 - 1: it returns the first block at or after the timestamp.
  pub find_block_by_timestamp-IsFirst :
      (fuel average : ℕ) (latest : List ℕ)
      → AreSmall time fuel latest
      → Arrives time timestamp latest
      → (r : ℕ) × (find_block_by_timestamp time timestamp fuel average latest ≡ some r)
        × IsFirst time timestamp r
  unfolding find_block_by_timestamp
  find_block_by_timestamp-IsFirst fuel average latest small arrives =
      let (n, found, after, small_n, time_n, enough) = wait_block_lem fuel latest small arrives in
      rw (found, find_from)
        (search_from-IsFirst fuel n (back_off time timestamp fuel average n n) small_n enough
          (back_off-IsBacked fuel average n n n enough (omega arith) (omega arith) after time_n))
