-- ===== src/Syncer/Tests.antt =====
-- Runs of the syncer's functions, and its theorems at concrete heights.
use anytoken_distribution.Base.{
  ℕ, ◌≡◌, ◌≢◌, refl, none, some, Option, List, [], ◌∷◌, length, arith, ◌⊎◌, inl, inr, true, ◌+◌,
  ◌≤◌, ◌<◌,
}
use anytoken_distribution.Syncer.Dispatch.{
  Syncer, Worker, dispatch_work, make_workers, make_worker, block_count, worker_count,
  min_work_blocks, job_count,
}
use anytoken_distribution.Syncer.Partition.{Partition, dispatch_work-Partition}
use anytoken_distribution.Syncer.Loop.{do_sync, sync_loop, await_stable, range_last}
use anytoken_distribution.Syncer.Coverage.{Covers, Consecutive, do_sync-Covers}
use anytoken_distribution.Syncer.Ending.{do_sync_done}
use anytoken_distribution.Base.{◌&&◌, ◌==◌, leb, if◌then◌else◌, Bool-cases, Bool, false}
use anytoken_distribution.Syncer.Dispatch.{first_answer}
use anytoken_distribution.Syncer.Range.{
  Sources, sync_range, sync_chunk, sync_blocks, range_to, get_synced,
}
use anytoken_distribution.Syncer.Synced.{FindsBlocks, GetsBlocks, IsSynced}
use anytoken_distribution.Syncer.RangeSynced.{sync_range-IsSynced}

abbrev bounded : Syncer
bounded = record { stable = 10; start = 0; end = 1350; last = 0 }

abbrev endless : Syncer
endless = record bounded { end = 0 }

ends : List Worker → List (ℕ × ℕ)
ends [] = []
ends (w ∷ workers) = (w.start, w.end) ∷ ends workers

dispatch-bounded :
    ends (dispatch_work 4 bounded 1000 1350).1 ≡ (1000, 1116) ∷ (1116, 1232) ∷ (1232, 1350) ∷ []
unfolding dispatch_work make_workers make_worker block_count worker_count ends
dispatch-bounded = refl

dispatch-endless :
    dispatch_work 4 endless 1000 1050 ≡ (record endless { start = 1000; last = 1000 }, [])
unfolding dispatch_work make_workers make_worker block_count worker_count
dispatch-endless = refl

dispatch_work-Partition_example :
    let (s', workers) = dispatch_work (job_count 0) bounded 1000 1350 in
    ((1350 < 1000 + min_work_blocks) × (bounded.end ≡ 0) × (workers ≡ []) × (s'.last ≡ 1000))
    ⊎ (((1000 + min_work_blocks ≤ 1350) ⊎ (bounded.end ≢ 0))
        × (length workers ≤ job_count 0)
        × Partition 1000 1350 workers
        × (s'.last ≡ 1350))
unfolding job_count
dispatch_work-Partition_example =
    dispatch_work-Partition (job_count 0) bounded 1000 1350 (omega arith) (omega arith)
      (omega arith)

abbrev first_worker : Worker
first_worker = record { id = 1; stable = 10; start = 1000; end = 1050 }

abbrev answers : List (Option ℕ)
answers = none ∷ some 1045 ∷ some 1055 ∷ none ∷ some 1070 ∷ []

sync-first_worker :
    do_sync 51 first_worker answers ≡ ((1000, 1040) ∷ (1041, 1045) ∷ (1046, 1049) ∷ [], true)
unfolding do_sync sync_loop await_stable range_last
sync-first_worker = refl

do_sync-Covers_example : Covers first_worker 1000 1070 (do_sync 51 first_worker answers)
do_sync-Covers_example =
    do_sync-Covers 51 first_worker 1070 answers (omega arith) (omega arith) (omega arith)
      (omega arith)

do_sync_done_example :
    let (ranges, done) = do_sync 51 first_worker answers in
    (done ≡ true) × Consecutive 1000 1050 ranges
do_sync_done_example =
    do_sync_done 51 first_worker 1070 answers (omega arith) (omega arith) (omega arith)
      (omega arith) (omega arith) (omega arith) (inr (inr (inl (omega arith)))) (omega arith)

-- Block 2 of the four is in the database; the node fails once for block 3.
abbrev sources : Sources
sources = record {
  find_blocks = λ from to. some (if leb from 2 && leb 2 to then 2 ∷ [] else []) ∷ [];
  get_block = λ height. none ∷ some height ∷ [];
}

abbrev is_two : ℕ → Bool
is_two n = n == 2

sync-sources : sync_range 5 false sources 1 4 ≡ (1 ∷ 3 ∷ 4 ∷ [], true)
unfolding sync_range sync_chunk sync_blocks range_to first_answer get_synced
sync-sources = refl

two_above : (from to : ℕ) → (leb from 2 && leb 2 to) ≡ true → from ≤ 2
two_above from to e = ground arith

two_below : (from to : ℕ) → (leb from 2 && leb 2 to) ≡ true → 2 ≤ to
two_below from to e = ground arith

sources-FindsBlocks : FindsBlocks is_two sources
unfolding first_answer
sources-FindsBlocks from to = elim (Bool-cases (leb from 2 && leb 2 to)) [
  | inl e ↦ rw e (2 ∷ [], refl, (refl, tt), ((two_above from to e, two_below from to e, refl), tt))
  | inr e ↦ rw e ([], refl, tt, tt)
]

sources-GetsBlocks : GetsBlocks sources
unfolding first_answer
sources-GetsBlocks height = (height, refl)

sync_range-IsSynced_example :
    let (parsed, done) = sync_range 5 false sources 1 4 in
    (done ≡ true) × IsSynced false is_two 1 (4 + 1) parsed
sync_range-IsSynced_example =
    sync_range-IsSynced 5 false is_two sources 1 4 sources-FindsBlocks sources-GetsBlocks
      (omega arith) (omega arith) (omega arith)
