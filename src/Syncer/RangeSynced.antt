-- ===== src/Syncer/RangeSynced.antt =====
-- syncRange syncs its range: the blocks in the database, and those that it parses.
use anytoken_distribution.Base.{
  ℕ, zero, suc, ◌+◌, ◌-◌, ◌≤◌, ◌<◌, ◌≡◌, refl, sym, some, List, [], ◌∷◌, length, All, Bool, true,
  false, ◌&&◌, ◌||◌, not, leb, ◌==◌, inl, inr, add64, sub64, if◌then◌else◌, word, arith, contains,
  contains_all, or_false, Distinct, InRange, Bool-cases, leb→le, ==_iff,
}
use anytoken_distribution.Syncer.Range.{
  Sources, get_synced, range_step, range_to, parse_first, sync_blocks, sync_chunk, and_then,
  sync_range,
}
use anytoken_distribution.Syncer.Synced.{
  FindsBlocks, GetsBlocks, IsSynced, IsSynced-nil, IsSynced-cons, IsSynced-skip, IsSynced-append,
  IsSynced-stored,
}

same_else : (test rest : Bool) → test ≡ false → (if test then true else rest) ≡ true → rest ≡ true
same_else false rest c e = e
same_else true rest c e = cc

not-not : (a : Bool) → not a ≡ false → a ≡ true
not-not true h = refl
not-not false h = cc

gt_next : (height to : ℕ) → leb height to ≡ false → height ≤ to + 1 → height ≡ to + 1
gt_next height to e le = ground arith

chunk_full :
    (overwrite : Bool) (from to count : ℕ)
    → from ≤ to
    → to + 1 < word
    → (not overwrite && count == add64 (sub64 to from) 1) ≡ true
    → (overwrite ≡ false) × (to + 1 ≡ from + count)
chunk_full true from to count le small e = cc
chunk_full false from to count le small e =
    let same = (==_iff count (add64 (sub64 to from) 1)).0 e in (refl, omega arith)

In-InRange :
    (in_database : ℕ → Bool) (from to n : ℕ) (mblocks : List ℕ)
    → to + 1 ≡ from + n
    → All (λ h. (from ≤ h) × (h ≤ to) × (in_database h ≡ true)) mblocks
    → All (InRange from n) mblocks
In-InRange in_database from to n [] e all = tt
In-InRange in_database from to n (mb ∷ mbs) e (here, all) =
    ((here.0, omega (arith, here.1)), In-InRange in_database from to n mbs e all)

or_right : (a b : Bool) → a ≡ false → (a || b) ≡ true → b ≡ true
or_right false b c e = e
or_right true b c e = cc

contains-In :
    (in_database : ℕ → Bool) (from to h : ℕ) (mblocks : List ℕ)
    → All (λ n. (from ≤ n) × (n ≤ to) × (in_database n ≡ true)) mblocks
    → contains h mblocks ≡ true
    → in_database h ≡ true
contains-In in_database from to h [] all e = cc
contains-In in_database from to h (mb ∷ mbs) (here, all) e = elim (Bool-cases (h == mb)) [
  | inl c ↦ let same : h ≡ mb = (==_iff h mb).0 c in rw same here.2
  | inr c ↦ contains-In in_database from to h mbs all (or_right (h == mb) (contains h mbs) c e)
]

stored_all :
    (in_database : ℕ → Bool) (from to : ℕ) (mblocks : List ℕ)
    → Distinct mblocks
    → All (λ n. (from ≤ n) × (n ≤ to) × (in_database n ≡ true)) mblocks
    → to + 1 ≡ from + length mblocks
    → (h : ℕ) → from ≤ h
    → h < to + 1
    → in_database h ≡ true
stored_all in_database from to mblocks distinct all full h low high =
    contains-In in_database from to h mblocks all (
      contains_all from (length mblocks) mblocks distinct
        (In-InRange in_database from to (length mblocks) mblocks full all) (omega arith) h
        (low, omega arith))

get_synced-In :
    (in_database : ℕ → Bool) (from to : ℕ) (mblocks : List ℕ) (h : ℕ)
    → All (λ n. (from ≤ n) × (n ≤ to) × (in_database n ≡ true)) mblocks
    → get_synced mblocks h ≡ true
    → in_database h ≡ true
unfolding get_synced
get_synced-In in_database from to [] h all e = cc
get_synced-In in_database from to (mb ∷ mbs) h (here, all) e = elim (Bool-cases (mb == h)) [
  | inl c ↦ let same : mb ≡ h = (==_iff mb h).0 c in rw (sym same) here.2
  | inr c ↦ get_synced-In in_database from to mbs h all (same_else (mb == h) _ c e)
]

module _ (overwrite : Bool) (in_database : ℕ → Bool) where
  -- A run that has ended, and has synced its blocks.
  abbrev Syncs : (a b : ℕ) → List ℕ × Bool → Type 0
  Syncs a b (parsed, done) = (done ≡ true) × IsSynced overwrite in_database a b parsed

  Syncs-parse_first :
      (a b block : ℕ) (later : List ℕ × Bool)
      → a < b
      → Syncs (a + 1) b later
      → Syncs a b (parse_first a (some block) later)
  Syncs-parse_first a b block (parsed, done) lt (ended, synced) =
      (ended, IsSynced-cons overwrite in_database a b parsed lt synced)

  Syncs-skip :
      (a b : ℕ) (later : List ℕ × Bool)
      → overwrite ≡ false
      → in_database a ≡ true
      → Syncs (a + 1) b later
      → Syncs a b later
  Syncs-skip a b (parsed, done) keeps stored (ended, synced) =
      (ended, IsSynced-skip overwrite in_database a b parsed keeps stored synced)

  sync_blocks-IsSynced :
      (fuel : ℕ) (sources : Sources) (mblocks : List ℕ) (from height to : ℕ)
      → GetsBlocks sources
      → All (λ n. (from ≤ n) × (n ≤ to) × (in_database n ≡ true)) mblocks
      → height ≤ to + 1
      → to + 1 < height + fuel
      → to + 1 < word
      → Syncs height (to + 1) (sync_blocks fuel overwrite sources mblocks height to)
  unfolding sync_blocks
  sync_blocks-IsSynced zero sources mblocks from height to gets all le enough small =
      absurd (omega arith)
  sync_blocks-IsSynced (suc fuel) sources mblocks from height to gets all le enough small =
      elim (Bool-cases (leb height to)) [
        | inl e ↦
            let below = leb→le height to e in
            let next : add64 height 1 ≡ height + 1 = omega arith in
            let later =
              sync_blocks-IsSynced fuel sources mblocks from (height + 1) to gets all (omega arith)
                (omega arith) small in
            elim (Bool-cases (overwrite || not (get_synced mblocks height))) [
              | inl c ↦
                  let (block, got) = gets height in
                  rw (e, c, got, next)
                    (Syncs-parse_first height (to + 1) block _ (omega arith) later)
              | inr c ↦
                  let (keeps, synced) = or_false overwrite (not (get_synced mblocks height)) c in
                  rw (e, c, next)
                    (Syncs-skip height (to + 1) _ keeps
                      (get_synced-In in_database from to mblocks height all
                        (not-not (get_synced mblocks height) synced))
                      later)
            ]
        | inr e ↦
            let same : height ≡ to + 1 = gt_next height to e le in
            rw (e, same) (refl, IsSynced-nil overwrite in_database (to + 1))
      ]

  sync_chunk-IsSynced :
      (sources : Sources) (mblocks : List ℕ) (from to : ℕ)
      → GetsBlocks sources
      → Distinct mblocks
      → All (λ n. (from ≤ n) × (n ≤ to) × (in_database n ≡ true)) mblocks
      → from ≤ to
      → to < from + range_step
      → to + 1 < word
      → Syncs from (to + 1) (sync_chunk overwrite sources from to mblocks)
  unfolding sync_chunk
  sync_chunk-IsSynced sources mblocks from to gets distinct all le short small =
      elim (Bool-cases (not overwrite && length mblocks == add64 (sub64 to from) 1)) [
        | inl c ↦
            let (keeps, full) = chunk_full overwrite from to (length mblocks) le small c in
            rw c (
              refl,
              IsSynced-stored overwrite in_database from (to + 1) keeps (λ h low high.
                  stored_all in_database from to mblocks distinct all full h low high),
            )
        | inr c ↦ rw c (
            sync_blocks-IsSynced (range_step + 1) sources mblocks from from to gets all
              (omega arith) (omega arith) small)
      ]

  range_to_bounds :
      (height end : ℕ)
      → height ≤ end
      → end + range_step < word
      → (height ≤ range_to height end)
        × (range_to height end ≤ end)
        × (range_to height end < height + range_step)
  unfolding range_to
  range_to_bounds height end le small =
      let to : sub64 (add64 height range_step) 1 ≡ height + range_step - 1 = omega arith in
      ground (arith, to)

  Syncs-and_then :
      (a b c : ℕ) (first rest : List ℕ × Bool)
      → a ≤ b
      → b ≤ c
      → Syncs a b first
      → Syncs b c rest
      → Syncs a c (and_then first rest)
  Syncs-and_then a b c (xs, true) (ys, done) ab bc (_, left) (ended, right) =
      (ended, IsSynced-append overwrite in_database a b c xs ys ab bc left right)
  Syncs-and_then a b c (xs, false) rest ab bc (e, left) right = cc

  sync_range_loop :
      (fuel : ℕ) (sources : Sources) (height end : ℕ)
      → FindsBlocks in_database sources
      → GetsBlocks sources
      → height ≤ end + 1
      → end + 1 < height + fuel
      → end + range_step < word
      → Syncs height (end + 1) (sync_range fuel overwrite sources height end)
  unfolding sync_range
  sync_range_loop zero sources height end finds gets le enough small = absurd (omega arith)
  sync_range_loop (suc fuel) sources height end finds gets le enough small =
      elim (Bool-cases (leb height end)) [
        | inl e ↦
            let to = range_to height end in
            let (from, limit, short) = range_to_bounds height end (leb→le height end e) small in
            let next : add64 to 1 ≡ to + 1 = omega arith in
            let (mblocks, found, distinct, all) = finds height to in
            let first =
              sync_chunk-IsSynced sources mblocks height to gets distinct all from short
                (omega arith) in
            let rest =
              sync_range_loop fuel sources (to + 1) end finds gets (omega arith) (omega arith)
                small in
            rw (e, found, next, sync_range)
              (Syncs-and_then height (to + 1) (end + 1) _ _ (omega arith) (omega arith) first rest)
        | inr e ↦
            let same : height ≡ end + 1 = gt_next height end e le in
            rw (e, sync_range, same) (refl, IsSynced-nil overwrite in_database (end + 1))
      ]

-- syncRange, whether it overwrites or not, where FindBlocksInRange comes to answer with distinct
-- numbers in its range, of blocks in the database, and BlockByNumber with a block, for heights that
-- do not overflow and fuel for one round more than the range has blocks: it ends; the blocks that
-- it passes to the parser rise in the range, so none is parsed twice; and every block of the range
-- is parsed, or is in the database already and not to be overwritten.
pub sync_range-IsSynced :
    (fuel : ℕ) (overwrite : Bool) (in_database : ℕ → Bool) (sources : Sources) (start end : ℕ)
    → FindsBlocks in_database sources
    → GetsBlocks sources
    → start ≤ end
    → end + 1 < start + fuel
    → end + range_step < word
    → let (parsed, done) = sync_range fuel overwrite sources start end in
      (done ≡ true) × IsSynced overwrite in_database start (end + 1) parsed
sync_range-IsSynced fuel overwrite in_database sources start end finds gets le enough small =
    sync_range_loop overwrite in_database fuel sources start end finds gets (omega arith) enough
      small
