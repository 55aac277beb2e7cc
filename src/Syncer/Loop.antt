-- ===== src/Syncer/Loop.antt =====
-- syncer/sync.go, doSync: the loop of one worker, which waits for stable blocks and passes ranges
-- of them to syncRange.
use anytoken_distribution.Base.{
  ℕ, zero, suc, ◌-◌, Option, none, some, List, [], ◌∷◌, Bool, true, false, ◌&&◌, ltb, leb,
  if◌then◌else◌, add64, sub64,
}
use anytoken_distribution.Syncer.Dispatch.{Worker}

-- The node is asked for its latest block until `needed` is not above it. `none` when it is still
-- asked after all its answers; an answer that is an error is `none`.
unfoldable pub await_stable : ℕ → ℕ → List (Option ℕ) → Option (ℕ × List (Option ℕ))
await_stable needed latest [] = if leb needed latest then some (latest, []) else none
await_stable needed latest (none ∷ answers) =
    if leb needed latest then some (latest, none ∷ answers) else await_stable needed latest answers
await_stable needed latest (some n ∷ answers) =
    if leb needed latest then some (latest, some n ∷ answers) else await_stable needed n answers

-- The last block of the next range.
unfoldable pub range_last : Worker → ℕ → ℕ
range_last w latest =
    let last = sub64 latest w.stable in if ltb 0 w.end && leb w.end last then w.end - 1 else last

abbrev pub is_done : Worker → ℕ → Bool
is_done w height = ltb 0 w.end && leb w.end height

-- The ranges passed to syncRange, in order, and whether the loop has ended. The fuel bounds their
-- number.
unfoldable pub sync_loop : ℕ → Worker → ℕ → ℕ → List (Option ℕ) → List (ℕ × ℕ) × Bool
sync_loop zero w height latest answers = ([], false)
sync_loop (suc fuel) w height latest answers = elim (is_done w height) [
  | true ↦ ([], true)
  | false ↦ elim (await_stable (add64 height w.stable) latest answers) [
    | none ↦ ([], false)
    | some (latest', answers') ↦
        let last = range_last w latest' in
        let (ranges, done) = sync_loop fuel w (add64 last 1) latest' answers' in
        ((height, last) ∷ ranges, done)
  ]
]

unfoldable pub do_sync : ℕ → Worker → List (Option ℕ) → List (ℕ × ℕ) × Bool
do_sync fuel w answers = sync_loop fuel w w.start w.end answers
