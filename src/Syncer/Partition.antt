-- ===== src/Syncer/Partition.antt =====
-- The workers of dipatchWork divide the blocks from the start to the last among them.
use anytoken_distribution.Base.{
  ℕ, div_pos, ◌⊎◌, subst, zero, suc, ◌+◌, ◌-◌, ◌*◌, ◌/◌, ◌≤◌, ◌<◌, ◌≡◌, ◌≢◌, refl, List, [], ◌∷◌,
  length, arith, word, ne→==_false, add64,
}
use native.Mathlib.Nat.{mul-le-mul_right, div-mul-le_self}
use anytoken_distribution.Syncer.Dispatch.{
  Worker, Syncer, make_worker, make_workers, block_count, worker_count, dispatch_work,
  min_work_blocks,
}

-- The ranges [start, end) of the workers follow one another from `a` to `b`, none of them empty.
abbrev pub Partition : ℕ → ℕ → List Worker → Type 0
Partition a b [] = a ≡ b
Partition a b (w ∷ workers) = (w.start ≡ a) × (a < w.end) × Partition w.end b workers

length-make_workers :
    (s : Syncer) (start last step count rounds i : ℕ)
    → length (make_workers s start last step count rounds i) ≡ rounds
unfolding make_workers
length-make_workers s start last step count zero i = refl
length-make_workers s start last step count (suc rounds) i =
    omega (arith, length-make_workers s start last step count rounds (i + 1))

count-le : (count step : ℕ) → 0 < step → count ≤ count * step
count-le count step h = grind arith

-- With `count` steps of a positive length that fit below the last block.
module _ (s : Syncer) (start last step count : ℕ) (small : last < word) (hs : 0 < step)
    (fits : start + count * step ≤ last) where
  reaches : (i : ℕ) → i < count → start + i * step + step ≤ last
  reaches i h = omega (arith, mul-le-mul_right {m = suc i} {n = count} step h)

  make_worker_start :
      (i : ℕ) → i < count → (make_worker s start last step count i).start ≡ start + i * step
  unfolding make_worker
  make_worker_start i h = omega (arith, reaches i h)

  make_worker_end :
      (i : ℕ) → suc i < count → (make_worker s start last step count i).end ≡ start + (i + 1) * step
  unfolding make_worker
  make_worker_end i h =
      let next : add64 i 1 ≡ i + 1 = omega (arith, count-le count step hs) in
      rw (ne→==_false i (count - 1) (omega arith), next) (omega (arith, reaches (suc i) h))

  make_worker_last : (i : ℕ) → suc i ≡ count → (make_worker s start last step count i).end ≡ last
  unfolding make_worker
  make_worker_last i h = ground arith

  make_workers-Partition :
      (rounds i : ℕ)
      → suc i + rounds ≡ count
      → Partition (start + i * step) last (make_workers s start last step count (suc rounds) i)
  unfolding make_workers
  make_workers-Partition zero i h =
      rw (make_worker_last i (omega arith))
        (make_worker_start i (omega arith), omega (arith, reaches i (omega arith)), refl)
  make_workers-Partition (suc rounds) i h = rw (make_worker_end i (omega arith)) (
    make_worker_start i (omega arith),
    omega arith,
    make_workers-Partition rounds (i + 1) (omega arith),
  )

worker_count_bounds :
    (jobs blocks : ℕ)
    → 0 < jobs
    → 0 < blocks
    → (0 < worker_count jobs blocks)
      × (worker_count jobs blocks ≤ blocks)
      × (worker_count jobs blocks ≤ jobs)
unfolding worker_count
worker_count_bounds jobs blocks hj hb = ground arith

pub block_count_lem :
    (start last : ℕ) → start < last → last < word → block_count start last ≡ last - start
unfolding block_count
block_count_lem start last h small = ground arith

pub workers-Partition :
    (jobs : ℕ) (s : Syncer) (start last : ℕ)
    → 0 < jobs
    → start < last
    → last < word
    → let count = worker_count jobs (last - start) in
      let workers = make_workers s start last ((last - start) / count) count count 0 in
      Partition start last workers × (length workers ≤ jobs)
workers-Partition jobs s start last hj h small =
    let count = worker_count jobs (last - start) in
    let step = (last - start) / count in
    let (some_worker, le_blocks, le_jobs) =
      worker_count_bounds jobs (last - start) hj (omega arith) in
    let fits : start + count * step ≤ last = omega (arith, div-mul-le_self (last - start) count) in
    let rounds : suc (count - 1) ≡ count = omega arith in
    let begin : start + 0 * step ≡ start = omega arith in
    let chain : Partition (start + 0 * step) last
        (make_workers s start last step count (suc (count - 1)) 0) =
      make_workers-Partition s start last step count small
        (div_pos (last - start) count some_worker le_blocks) fits (count - 1) 0 (omega arith) in
    (
      subst (λ a. Partition a last (make_workers s start last step count count 0)) begin
          (subst (λ r. Partition (start + 0 * step) last (make_workers s start last step count r 0))
            rounds chain),
      omega (arith, length-make_workers s start last step count count 0),
    )

-- dipatchWork, from a start below the last block, with at least one job: either it makes no worker,
-- exactly when fewer than 100 blocks are missing and the syncer is endless, and then the loop
-- worker is to begin at the start; or it makes at most as many workers as jobs, whose ranges are
-- not empty and follow one another from the start to the last block without gap or overlap.
pub dispatch_work-Partition :
    (jobs : ℕ) (s : Syncer) (start last : ℕ)
    → 0 < jobs
    → start < last
    → last < word
    → let (s', workers) = dispatch_work jobs s start last in
      ((last < start + min_work_blocks) × (s.end ≡ 0) × (workers ≡ []) × (s'.last ≡ start))
      ⊎ (((start + min_work_blocks ≤ last) ⊎ (s.end ≢ 0))
          × (length workers ≤ jobs)
          × Partition start last workers
          × (s'.last ≡ last))
unfolding dispatch_work
dispatch_work-Partition jobs s start last hj h small =
    ground
      (arith, workers-Partition jobs s start last hj h small, block_count_lem start last h small)
