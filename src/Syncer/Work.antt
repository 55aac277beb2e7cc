-- ===== src/Syncer/Work.antt =====
-- syncer/sync.go: doWork, the workers together, with checkSync and doLoopWork. The workers run at
-- the same time, and share nothing that their loops read: each is run by itself.
use anytoken_distribution.Base.{ℕ, Option, none, some, List, [], ◌∷◌, Bool, ◌==◌, if◌then◌else◌}
use anytoken_distribution.Syncer.Dispatch.{Worker, Syncer, dispatch_work}
use anytoken_distribution.Syncer.Loop.{do_sync}

-- The ranges that a worker has passed to syncRange, and whether it has ended.
abbrev pub Ran : Type 0
Ran = List (ℕ × ℕ) × Bool

-- The workers of doSyncWork, where `answers` are those that the node gives to each of them.
unfoldable pub run_workers : (fuel : ℕ) → (ℕ → List (Option ℕ)) → List Worker → List Ran
run_workers fuel answers [] = []
run_workers fuel answers (w ∷ workers) =
    do_sync fuel w (answers w.id) ∷ run_workers fuel answers workers

-- checkSync's worker, from the start to the last block once more; its id is -1 in the code, and is
-- not read.
abbrev pub check_worker : Syncer → Worker
check_worker s = record { id = 0; stable = s.stable; start = s.start; end = s.last }

-- doLoopWork's worker, which has no end.
abbrev pub loop_worker : Syncer → Worker
loop_worker s = record { id = 0; stable = s.stable; start = s.last; end = 0 }

-- What the workers, checkSync and doLoopWork have done.
pub record Work : Type 0 where
  pub synced : List Ran
  pub checked : Option Ran
  pub looped : Option Ran

unfoldable pub do_sync_work :
    (only_sync_account : Bool)
    → (fuel : ℕ) → (answers : ℕ → List (Option ℕ)) → (check_answers : List (Option ℕ)) → Syncer
    → List Worker
    → List Ran × Option Ran
unfolding run_workers
do_sync_work only_sync_account fuel answers check_answers s [] = ([], none)
do_sync_work only_sync_account fuel answers check_answers s (w ∷ workers) = (
  run_workers fuel answers (w ∷ workers),
  if only_sync_account then none else some (do_sync fuel (check_worker s) check_answers),
)

-- sync after dialServer: dipatchWork, from the start and last that getStartAndLast found, and doWork.
unfoldable pub sync_all :
    (only_sync_account : Bool)
    → (fuel jobs : ℕ) → (answers : ℕ → List (Option ℕ)) → (check_answers : List (Option ℕ))
    → (loop_answers : List (Option ℕ)) → Syncer
    → (start last : ℕ) → Work
unfolding do_sync_work
sync_all only_sync_account fuel jobs answers check_answers loop_answers s start last =
    let (s', workers) = dispatch_work jobs s start last in
    let (synced, checked) = do_sync_work only_sync_account fuel answers check_answers s' workers in
    record {
      synced = synced;
      checked = checked;
      looped = if s'.end == 0 then some (do_sync fuel (loop_worker s') loop_answers) else none;
    }
