-- ===== src/Syncer/OnceEach.antt =====
-- The workers together pass on each block exactly once, and the loop goes on where they end.
use anytoken_distribution.Base.{
  ℕ, zero, suc, ◌+◌, ◌≤◌, ◌<◌, ◌≡◌, refl, inl, inr, Option, none, some, List, [], ◌∷◌, All, true,
  ◌&&◌, leb, ltb, if◌then◌else◌, arith, word,
}
use anytoken_distribution.Syncer.Dispatch.{Worker, Syncer, make_worker, make_workers}
use anytoken_distribution.Syncer.Loop.{do_sync}
use anytoken_distribution.Syncer.Partition.{Partition}
use anytoken_distribution.Syncer.Coverage.{Consecutive, AnswersAtMost, Reaches}
use anytoken_distribution.Syncer.Ending.{do_sync_done}
use anytoken_distribution.Syncer.Work.{Ran, run_workers}

-- In how many of the ranges [x, y] the block lies.
abbrev pub times_in : ℕ → List (ℕ × ℕ) → ℕ
times_in b [] = 0
times_in b ((x, y) ∷ ranges) = (if leb x b && leb b y then 1 else 0) + times_in b ranges

abbrev pub times_in_all : ℕ → List Ran → ℕ
times_in_all b [] = 0
times_in_all b ((ranges, done) ∷ rans) = times_in b ranges + times_in_all b rans

-- Whether the block lies in [a, e).
abbrev pub within : ℕ → ℕ → ℕ → ℕ
within a b e = if leb a b && ltb b e then 1 else 0

abbrev pub AllDone : List Ran → Type 0
AllDone [] = Unit
AllDone ((ranges, done) ∷ rans) = (done ≡ true) × AllDone rans

one_more :
    (a b e y n : ℕ)
    → a ≤ y
    → y + 1 ≤ e
    → n ≡ within (y + 1) b e
    → (if leb a b && leb b y then 1 else 0) + n ≡ within a b e
one_more a b e y n le le' same = rw same (ground arith)

pub Consecutive-times :
    (b a e : ℕ) (ranges : List (ℕ × ℕ))
    → Consecutive a e ranges
    → (times_in b ranges ≡ within a b e) × (a ≤ e)
Consecutive-times b a e [] same = (ground arith, omega arith)
Consecutive-times b a e ((x, y) ∷ ranges) (begins, le, rest) =
    let (times, above) = Consecutive-times b (y + 1) e ranges rest in
    (rw begins (one_more a b e y (times_in b ranges) (omega arith) above times), omega arith)

Reaches-mono : (m n : ℕ) (answers : List (Option ℕ)) → m ≤ n → Reaches n answers → Reaches m answers
Reaches-mono m n [] le r = absurd r
Reaches-mono m n (none ∷ answers) le r = Reaches-mono m n answers le r
Reaches-mono m n (some x ∷ answers) le (inl high) = inl (omega arith)
Reaches-mono m n (some x ∷ answers) le (inr later) = inr (Reaches-mono m n answers le later)

Partition-le : (a e : ℕ) (workers : List Worker) → Partition a e workers → a ≤ e
Partition-le a e [] same = omega arith
Partition-le a e (w ∷ workers) (begins, lt, rest) = omega (arith, Partition-le w.end e workers rest)

join_times :
    (c a b m e n k : ℕ)
    → c ≡ a
    → a ≤ m
    → m ≤ e
    → n ≡ within c b m
    → k ≡ within m b e
    → n + k ≡ within a b e
join_times c a b m e n k begins le le' first second = rw (first, second) (ground arith)

-- Workers of one stable distance, whose node comes to be that far above their end.
pub run_workers-once :
    (fuel stable top a e : ℕ) (answers : ℕ → List (Option ℕ)) (workers : List Worker)
    → Partition a e workers
    → All (λ w. w.stable ≡ stable) workers
    → e + stable < word
    → top + 1 < word
    → e ≤ top
    → ((i : ℕ) → AnswersAtMost top (answers i))
    → ((i : ℕ) → Reaches (e + stable) (answers i))
    → e < a + fuel
    → AllDone (run_workers fuel answers workers)
      × ((b : ℕ) → times_in_all b (run_workers fuel answers workers) ≡ within a b e)
unfolding run_workers
run_workers-once fuel stable top a e answers [] same all room small le most reach enough =
    (tt, λ b. ground arith)
run_workers-once fuel stable top a e answers (w ∷ workers) (begins, lt, rest) (here, all) room small
      le most reach enough =
    let above = Partition-le w.end e workers rest in
    let (done, chain) =
      do_sync_done fuel w top (answers w.id) (omega arith) (omega arith) (omega arith) small
        (omega arith) (most w.id)
        (Reaches-mono (w.end + w.stable) (e + stable) (answers w.id) (omega arith) (reach w.id))
        (omega arith) in
    let (dones, times) =
      run_workers-once fuel stable top w.end e answers workers rest all room small le most reach
        (omega arith) in
    (
      (done, dones),
      λ b.
          join_times w.start a b w.end e (times_in b (do_sync fuel w (answers w.id)).0) _ begins
            (omega arith) above (Consecutive-times b w.start w.end _ chain).0 (times b),
    )

pub make_workers-stable :
    (s : Syncer) (start last step count rounds i : ℕ)
    → All (λ w. w.stable ≡ s.stable) (make_workers s start last step count rounds i)
unfolding make_workers make_worker
make_workers-stable s start last step count zero i = tt
make_workers-stable s start last step count (suc rounds) i =
    (refl, make_workers-stable s start last step count rounds (i + 1))
