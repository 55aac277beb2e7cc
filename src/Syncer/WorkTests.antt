-- ===== src/Syncer/WorkTests.antt =====
-- A syncer with four jobs over 450 blocks.
use anytoken_distribution.Base.{ℕ, Option, none, some, List, [], ◌∷◌, ◌==◌, false, arith, inl}
use anytoken_distribution.Syncer.Dispatch.{Syncer}
use anytoken_distribution.Syncer.Work.{sync_all}
use anytoken_distribution.Syncer.WorkDone.{IsWorkDone, sync_all-IsWorkDone}

abbrev syncer : Syncer
syncer = record { stable = 30; start = 0; end = 0; last = 0 }

-- An error, and then a block far enough above the last one.
abbrev answers : List (Option ℕ)
answers = none ∷ some 1490 ∷ []

sync_all-IsWorkDone_example :
    let work = sync_all false 451 4 (λ i. answers) answers [] syncer 1000 1450 in
    IsWorkDone false 1000 1450 (syncer.end == 0) work
sync_all-IsWorkDone_example =
    sync_all-IsWorkDone false 451 4 1000 1450 1500 (λ i. answers) answers [] syncer (omega arith)
      (omega arith) (inl (omega arith)) (omega arith) (omega arith) (omega arith)
      (λ i. (omega arith, tt)) (λ i. inl (omega arith)) (omega arith, tt) (inl (omega arith)) tt
      (omega arith)
