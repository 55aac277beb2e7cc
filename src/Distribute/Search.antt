-- ===== src/Distribute/Search.antt =====
-- distributer/util.go: FindBlockByTimestamp and binarySearch, over the node's block times. A header
-- is given by its number.
use Prim.Native.Nat.{compare, Ordering}
use anytoken_distribution.Base.{
  ℕ, zero, suc, ◌-◌, ◌/◌, Option, none, some, List, [], ◌∷◌, true, false, ltb, leb, ◌==◌,
  if◌then◌else◌, add64, sub64,
}

-- params.GetAverageBlockTime
unfoldable pub get_average_block_time : ℕ → ℕ
get_average_block_time configured = if configured == 0 then 13 else configured

-- What the second loop of FindBlockByTimestamp ends with: a header to return, or the two bounds.
pub data Backed : Type 0 where
  exact : ℕ → Backed
  between : (high low : ℕ) → Backed

module _ (time : ℕ → ℕ) (timestamp : ℕ) where
  -- The fuel bounds the rounds; `none` when it is used up.
  unfoldable pub binary_search : (fuel high low : ℕ) → Option ℕ
  binary_search zero high low = none
  binary_search (suc fuel) high low =
      let mid = add64 low high / 2 in
      elim (ltb low high) [
        | true ↦ elim (compare (time mid) timestamp) [
          | Ordering.eq ↦ some mid
          | Ordering.gt ↦ binary_search fuel mid low
          | Ordering.lt ↦ binary_search fuel high (add64 mid 1)
        ]
        | false ↦ some low
      ]

  -- The first loop: the node's latest blocks, until one is not older than the timestamp.
  unfoldable pub wait_block : List ℕ → Option ℕ
  wait_block [] = none
  wait_block (n ∷ latest) = if ltb (time n) timestamp then wait_block latest else some n

  -- `blockNumber.Sub(blockNumber, countOfBlocks)`, not below 0.
  unfoldable pub step_back : ℕ → ℕ → ℕ
  step_back average number =
      let count = add64 (sub64 (time number) timestamp / average) 1 in
      if leb number count then 0 else number - count

  -- The second loop.
  unfoldable pub back_off : (fuel average number high : ℕ) → Option Backed
  back_off zero average number high = none
  back_off (suc fuel) average number high = elim (compare (time number) timestamp) [
    | Ordering.eq ↦ some (exact number)
    | Ordering.gt ↦ elim (number == 0) [
      | true ↦ some (exact number)
      | false ↦ back_off fuel average (step_back average number) number
    ]
    | Ordering.lt ↦ some (between high number)
  ]

  unfoldable pub search_from : ℕ → Option Backed → Option ℕ
  search_from fuel none = none
  search_from fuel (some (exact number)) = some number
  search_from fuel (some (between high low)) = binary_search fuel high low

  unfoldable pub find_from : (fuel average : ℕ) → Option ℕ → Option ℕ
  find_from fuel average none = none
  find_from fuel average (some number) = search_from fuel (back_off fuel average number number)

  unfoldable pub find_block_by_timestamp : (fuel average : ℕ) → List ℕ → Option ℕ
  unfolding find_from
  find_block_by_timestamp fuel average latest = find_from fuel average (wait_block latest)
