-- ===== src/Syncer/Dispatch.antt =====
-- syncer/sync.go: the configuration of the syncer, getStartAndLast and dipatchWork. A message
-- channel holds no state of its own here: it is what the worker's loop emits.
use anytoken_distribution.Base.{
  ℕ, zero, suc, ◌+◌, ◌-◌, ◌/◌, Option, none, some, List, [], ◌∷◌, ◌&&◌, not, ltb, leb, ◌==◌,
  if◌then◌else◌, add64, sub64, mul64,
}
use mathlib.Core.Option

pub record Worker : Type 0 where
  pub id : ℕ
  pub stable : ℕ
  pub start : ℕ
  pub end : ℕ

pub record Syncer : Type 0 where
  pub stable : ℕ
  pub start : ℕ
  pub end : ℕ
  pub last : ℕ

abbrev pub max_jobs : ℕ
max_jobs = 100

abbrev pub min_work_blocks : ℕ
min_work_blocks = 100

-- `jobCount` as initConfig leaves it: 4 unless configured, and 100 at most.
unfoldable pub job_count : ℕ → ℕ
job_count configured =
    if configured == 0 then 4 else if ltb max_jobs configured then max_jobs else configured

-- A loop that asks until the answer is no error; `none` when it still asks after all answers.
unfoldable pub first_answer {ℓ} : {A : Type ℓ} → List (Option A) → Option A
first_answer [] = none
first_answer (none ∷ answers) = first_answer answers
first_answer (some a ∷ answers) = some a

-- The number of the latest sync info, if it was found, and the block after it.
abbrev pub after_synced : Option ℕ → ℕ
after_synced none = 0
after_synced (some number) = if number == 0 then 0 else add64 number 1

-- getStartAndLast: `sync_info` is the database's answer, `min_height` the lowest creation height
-- of the configured exchanges, and `latest` the node's answers.
unfoldable pub get_start : Syncer → Option ℕ → ℕ → ℕ
get_start s sync_info min_height =
    if s.start == 0
    then (let start = after_synced sync_info in if start == 0 then min_height else start)
    else s.start

unfoldable pub get_last : Syncer → List (Option ℕ) → Option ℕ
unfolding first_answer
get_last s latest =
    if s.end == 0
    then Option.map (λ n. if ltb s.stable n then sub64 n s.stable else n) (first_answer latest)
    else some s.end

-- The body of the loop that makes the workers.
unfoldable pub make_worker : Syncer → (start last step count i : ℕ) → Worker
make_worker s start last step count i = record {
  id = i + 1;
  stable = s.stable;
  start = add64 start (mul64 i step);
  end = if i == count - 1 then last else add64 start (mul64 (add64 i 1) step);
}

-- That loop, with the rounds left.
unfoldable pub make_workers : Syncer → (start last step count rounds i : ℕ) → List Worker
make_workers s start last step count zero i = []
make_workers s start last step count (suc rounds) i =
    make_worker s start last step count i ∷ make_workers s start last step count rounds (i + 1)

unfoldable pub block_count : ℕ → ℕ → ℕ
block_count start last = if ltb start last then sub64 last start else 1

unfoldable pub worker_count : ℕ → ℕ → ℕ
worker_count jobs blocks =
    let count = blocks / min_work_blocks in
    if ltb jobs count then jobs else if count == 0 then 1 else count

-- dipatchWork, from the start and last that getStartAndLast found.
unfoldable pub dispatch_work : ℕ → Syncer → ℕ → ℕ → Syncer × List Worker
dispatch_work jobs s start last =
    let blocks = block_count start last in
    let count = worker_count jobs blocks in
    let found = record s { start = start; last = last } in
    if leb last start && not (s.end == 0)
    then (s, [])
    else if ltb blocks min_work_blocks && s.end == 0
    then (record found { last = start }, [])
    else (found, make_workers s start last (blocks / count) count count 0)
