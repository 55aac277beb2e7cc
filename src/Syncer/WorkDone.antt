-- ===== src/Syncer/WorkDone.antt =====
-- The syncer as a whole: which blocks the workers, checkSync and doLoopWork pass on.
use anytoken_distribution.Base.{
  ℕ, ◌+◌, ◌-◌, ◌/◌, ◌≤◌, ◌<◌, ◌≡◌, refl, ◌⊎◌, Option, none, some, List, [], ◌∷◌, Bool, true, false,
  ◌&&◌, ◌==◌, leb, ltb, if◌then◌else◌, arith, word,
}
use anytoken_distribution.Syncer.Dispatch.{
  Worker, Syncer, min_work_blocks, worker_count, make_workers, dispatch_work,
}
use anytoken_distribution.Syncer.Loop.{do_sync}
use anytoken_distribution.Syncer.Partition.{Partition, workers-Partition, block_count_lem}
use anytoken_distribution.Syncer.Coverage.{Consecutive, AnswersAtMost, Reaches, do_sync-Covers}
use anytoken_distribution.Syncer.Ending.{do_sync_done}
use anytoken_distribution.Syncer.Work.{
  Ran, run_workers, check_worker, loop_worker, Work, do_sync_work, sync_all,
}
use anytoken_distribution.Syncer.OnceEach.{
  times_in, times_in_all, within, AllDone, Consecutive-times, run_workers-once, make_workers-stable,
}

-- The syncer and the workers that dipatchWork makes when there is work.
abbrev found_syncer : Syncer → (start last : ℕ) → Syncer
found_syncer s start last = record s { start = start; last = last }

abbrev workers_of : (jobs : ℕ) → Syncer → (start last : ℕ) → List Worker
workers_of jobs s start last =
    let count = worker_count jobs (last - start) in
    make_workers s start last ((last - start) / count) count count 0

dispatch_work_run :
    (jobs : ℕ) (s : Syncer) (start last : ℕ)
    → start < last
    → last < word
    → (start + min_work_blocks ≤ last) ⊎ (0 < s.end)
    → dispatch_work jobs s start last ≡ (found_syncer s start last, workers_of jobs s start last)
unfolding dispatch_work
dispatch_work_run jobs s start last lt small work =
    let blocks = block_count_lem start last lt small in
    let later : leb last start ≡ false = ground arith in
    let enough : (ltb (last - start) min_work_blocks && s.end == 0) ≡ false = ground arith in
    rw (blocks, later, enough) refl

do_sync_work_run :
    (only : Bool) (fuel a e : ℕ) (answers : ℕ → List (Option ℕ)) (check_answers : List (Option ℕ))
    (s : Syncer) (workers : List Worker)
    → a < e
    → Partition a e workers
    → do_sync_work only fuel answers check_answers s workers ≡ (
      run_workers fuel answers workers,
      if only then none else some (do_sync fuel (check_worker s) check_answers),
    )
unfolding do_sync_work
do_sync_work_run only fuel a e answers check_answers s [] lt same = absurd (omega arith)
do_sync_work_run only fuel a e answers check_answers s (w ∷ workers) lt parts = refl

-- What the work of a syncer comes to, by `onlySyncAccount` and whether it has no end.
pub record IsWorkDone (only : Bool) (start last : ℕ) (endless : Bool) (work : Work) : Type 0 where
  pub all_done : AllDone work.synced
  pub once : (b : ℕ) → times_in_all b work.synced ≡ within start b last
  pub unchecked : only ≡ true → work.checked ≡ none
  pub once_more :
      only ≡ false
      → (check : Ran) × (work.checked ≡ some check)
        × (check.1 ≡ true)
        × ((b : ℕ) → times_in b check.0 ≡ within start b last)
  pub goes_on :
      endless ≡ true
      → (ran : Ran) × (top : ℕ) × (work.looped ≡ some ran) × Consecutive last top ran.0

-- The work that comes of the calls.
work_done :
    (only : Bool) (fuel jobs start last top : ℕ) (answers : ℕ → List (Option ℕ))
    (check_answers loop_answers : List (Option ℕ)) (s : Syncer)
    → let found = found_syncer s start last in
      0 < jobs
      → start < last
      → last + s.stable < word
      → top + 1 < word
      → last ≤ top
      → ((i : ℕ) → AnswersAtMost top (answers i))
      → ((i : ℕ) → Reaches (last + s.stable) (answers i))
      → AnswersAtMost top check_answers
      → Reaches (last + s.stable) check_answers
      → AnswersAtMost top loop_answers
      → last < start + fuel
      → IsWorkDone only start last (s.end == 0) (record {
        synced = run_workers fuel answers (workers_of jobs s start last);
        checked = if only then none else some (do_sync fuel (check_worker found) check_answers);
        looped = if s.end == 0 then some (do_sync fuel (loop_worker found) loop_answers) else none;
      })
work_done only fuel jobs start last top answers check_answers loop_answers s hj lt room small le
      most reach check_most check_reach loop_most enough =
    let found = found_syncer s start last in
    let count = worker_count jobs (last - start) in
    let (parts, _) = workers-Partition jobs s start last hj lt (omega arith) in
    let (dones, times) =
      run_workers-once fuel s.stable top start last answers (workers_of jobs s start last) parts
        (make_workers-stable s start last ((last - start) / count) count count 0) room small le most
        reach enough in
    let (checked, chain) =
      do_sync_done fuel (check_worker found) top check_answers (omega arith) (omega arith)
        (omega arith) small le check_most check_reach enough in
    let (e, loop_chain, _, _, _) =
      do_sync-Covers fuel (loop_worker found) top loop_answers room small (omega arith) loop_most in
    record {
      all_done = dones;
      once = times;
      unchecked = λ on. rw on refl;
      once_more = λ off. (
        do_sync fuel (check_worker found) check_answers,
        rw off refl,
        checked,
        λ b. (Consecutive-times b start last _ chain).0,
      );
      goes_on = λ endless.
          (do_sync fuel (loop_worker found) loop_answers, e, rw endless refl, loop_chain);
    }

-- The syncer, with at least one job, from a start below the last block, where it has an end or 100
-- blocks to sync, with heights that do not overflow and fuel for one round more than there are
-- blocks, and where the node comes to answer each worker with a block the stable distance above the
-- last one: all workers end, and each block from the start up to, and without, the last one lies in
-- exactly one range of exactly one worker, and no other block in any; with `onlySyncAccount`
-- checkSync does not run, and without it, it ends and goes through each of these blocks exactly once
-- more; and without an end, the ranges of doLoopWork begin at the last block and
-- follow one another.
pub sync_all-IsWorkDone :
    (only : Bool) (fuel jobs start last top : ℕ) (answers : ℕ → List (Option ℕ))
    (check_answers loop_answers : List (Option ℕ)) (s : Syncer)
    → 0 < jobs
    → start < last
    → (start + min_work_blocks ≤ last) ⊎ (0 < s.end)
    → last + s.stable < word
    → top + 1 < word
    → last ≤ top
    → ((i : ℕ) → AnswersAtMost top (answers i))
    → ((i : ℕ) → Reaches (last + s.stable) (answers i))
    → AnswersAtMost top check_answers
    → Reaches (last + s.stable) check_answers
    → AnswersAtMost top loop_answers
    → last < start + fuel
    → IsWorkDone only start last
        (s.end == 0)
        (sync_all only fuel jobs answers check_answers loop_answers s start last)
unfolding sync_all
sync_all-IsWorkDone only fuel jobs start last top answers check_answers loop_answers s hj lt work
      room small le most reach check_most check_reach loop_most enough =
    let (parts, _) = workers-Partition jobs s start last hj lt (omega arith) in
    rw
      (
        dispatch_work_run jobs s start last lt (omega arith) work,
        do_sync_work_run only fuel start last answers check_answers (found_syncer s start last)
            (workers_of jobs s start last) lt parts,
      )
      (work_done only fuel jobs start last top answers check_answers loop_answers s hj lt room small
        le most reach check_most check_reach loop_most enough)
