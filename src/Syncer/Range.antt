-- ===== src/Syncer/Range.antt =====
-- syncer/sync.go, syncRange: the blocks of a range that are fetched from the node and passed to the
-- parser. A block in the database is given by its number.
use anytoken_distribution.Base.{
  ℕ, zero, suc, ◌+◌, Option, none, some, List, [], ◌∷◌, ◌++◌, length, Bool, true, false, ◌&&◌, ◌||◌,
  not, ltb, leb, ◌==◌, if◌then◌else◌, add64, sub64,
}
use anytoken_distribution.Syncer.Dispatch.{first_answer}

-- The answers to the calls that are repeated until one is no error: those of FindBlocksInRange, for
-- the range, and of BlockByNumber, for the number.
pub record Sources : Type 0 where
  pub find_blocks : (from to : ℕ) → List (Option (List ℕ))
  pub get_block : ℕ → List (Option ℕ)

unfoldable pub get_synced : List ℕ → ℕ → Bool
get_synced [] num = false
get_synced (mb ∷ mbs) num = if mb == num then true else get_synced mbs num

abbrev pub range_step : ℕ
range_step = 10000

unfoldable pub range_to : (height end : ℕ) → ℕ
range_to height end = let to = sub64 (add64 height range_step) 1 in if ltb end to then end else to

-- A block that was not fetched ends the run; else it comes first.
abbrev pub parse_first : ℕ → Option ℕ → List ℕ × Bool → List ℕ × Bool
parse_first height none later = ([], false)
parse_first height (some block) (parsed, done) = (height ∷ parsed, done)

-- The inner loop: the numbers of the blocks passed to the parser, and whether it has ended.
unfoldable pub sync_blocks : (fuel : ℕ) → Bool → Sources → List ℕ → (height to : ℕ) → List ℕ × Bool
unfolding get_synced first_answer
sync_blocks zero overwrite sources mblocks height to = ([], false)
sync_blocks (suc fuel) overwrite sources mblocks height to =
    let later = sync_blocks fuel overwrite sources mblocks (add64 height 1) to in
    if leb height to
    then (if overwrite || not (get_synced mblocks height)
        then parse_first height (first_answer (sources.get_block height)) later
        else later)
    else ([], true)

-- What one round of the outer loop does with the blocks found.
unfoldable pub sync_chunk : Bool → Sources → (from to : ℕ) → List ℕ → List ℕ × Bool
unfolding sync_blocks
sync_chunk overwrite sources from to mblocks =
    if not overwrite && length mblocks == add64 (sub64 to from) 1
    then ([], true)
    else sync_blocks (range_step + 1) overwrite sources mblocks from to

abbrev pub and_then : List ℕ × Bool → List ℕ × Bool → List ℕ × Bool
and_then (parsed, true) (more, done) = (parsed ++ more, done)
and_then (parsed, false) more = (parsed, false)

-- The outer loop, on fuel for its rounds.
unfoldable pub sync_range : (fuel : ℕ) → Bool → Sources → (height end : ℕ) → List ℕ × Bool
unfolding sync_chunk range_to first_answer
sync_range zero overwrite sources height end = ([], false)
sync_range (suc fuel) overwrite sources height end =
    let to = range_to height end in
    let more = sync_range fuel overwrite sources (add64 to 1) end in
    elim (leb height end) [
      | false ↦ ([], true)
      | true ↦ elim (first_answer (sources.find_blocks height to)) [
        | none ↦ ([], false)
        | some mblocks ↦ and_then (sync_chunk overwrite sources height to mblocks) more
      ]
    ]
