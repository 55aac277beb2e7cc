-- ===== src/Syncer/Ending.antt =====
-- A worker's loop ends when the node's blocks come to lie far enough above its end.
use anytoken_distribution.Base.{
  ℕ, subst, zero, suc, ◌+◌, ◌≤◌, ◌<◌, ◌≡◌, ◌⊎◌, inl, inr, Option, none, some, List, [], ◌∷◌, true,
  false, leb, add64, word, arith, le→leb, Bool-cases,
}
use anytoken_distribution.Syncer.Dispatch.{Worker}
use anytoken_distribution.Syncer.Loop.{await_stable, range_last, is_done, sync_loop, do_sync}
use anytoken_distribution.Syncer.Coverage.{
  Consecutive, AnswersAtMost, Reaches, await_stable-Awaited, range_last_bounds, sync_loop-Covers,
}

after_answer :
    (needed latest m n : ℕ) (answers : List (Option ℕ))
    → needed ≤ m
    → leb needed latest ≡ false
    → (m ≤ latest) ⊎ Reaches m (some n ∷ answers)
    → (m ≤ n) ⊎ Reaches m answers
after_answer needed latest m n answers le e (inl enough) = absurd (ground arith)
after_answer needed latest m n answers le e (inr later) = later

await_stable_done :
    (needed latest m : ℕ) (answers : List (Option ℕ))
    → needed ≤ m
    → (m ≤ latest) ⊎ Reaches m answers
    → (latest' : ℕ) × (answers' : List (Option ℕ)) × (await_stable needed latest answers
        ≡ some (latest', answers'))
      × ((m ≤ latest') ⊎ Reaches m answers')
unfolding await_stable
await_stable_done needed latest m [] le h = elim h [
  | inl enough ↦ (latest, [], rw (le→leb needed latest (omega arith)), inl enough)
  | inr never ↦ absurd never
]
await_stable_done needed latest m (none ∷ answers) le h = elim (Bool-cases (leb needed latest)) [
  | inl e ↦ (latest, none ∷ answers, rw e, h)
  | inr e ↦
      let (l, as', found, still) = await_stable_done needed latest m answers le h in
      (l, as', rw e found, still)
]
await_stable_done needed latest m (some n ∷ answers) le h = elim (Bool-cases (leb needed latest)) [
  | inl e ↦ (latest, some n ∷ answers, rw e, h)
  | inr e ↦
      let (l, as', found, still) =
        await_stable_done needed n m answers le (after_answer needed latest m n answers le e h) in
      (l, as', rw e found, still)
]

not_done : (w : Worker) (height : ℕ) → 0 < w.end → is_done w height ≡ false → height < w.end
not_done w height he e = ground arith

sync_loop_done :
    (fuel : ℕ) (w : Worker) (height latest top : ℕ) (answers : List (Option ℕ))
    → 0 < w.end
    → height ≤ w.end
    → height + w.stable < word
    → top + 1 < word
    → latest ≤ top
    → AnswersAtMost top answers
    → (w.end + w.stable ≤ latest) ⊎ Reaches (w.end + w.stable) answers
    → w.end < height + fuel
    → (sync_loop fuel w height latest answers).1 ≡ true
unfolding sync_loop
sync_loop_done zero w height latest top answers he hle hs ht h a r enough = absurd (omega arith)
sync_loop_done (suc fuel) w height latest top answers he hle hs ht h a r enough =
    elim (Bool-cases (is_done w height)) [
      | inl e ↦ rw (e, sync_loop)
      | inr e ↦
          let (latest', answers', found, r') =
            await_stable_done (add64 height w.stable) latest (w.end + w.stable) answers
              (omega (arith, not_done w height he e)) r in
          let (asked, le, a') =
            rw found at (await_stable-Awaited (add64 height w.stable) latest top answers h a) in
          let (up, stable, under) =
            range_last_bounds w height latest' top (omega (arith, asked)) le ht e in
          rw (e, found, sync_loop)
            (sync_loop_done fuel w (add64 (range_last w latest') 1) latest' top answers' he
              (omega (arith, under he, stable)) (omega (arith, stable)) ht le a' r'
              (omega (arith, stable, up)))
    ]

-- doSync ends, for a worker that has an end at or above its start, whose stable heights do not
-- overflow, when the node comes to answer with a block as high as the end plus the stable distance
-- (its answers may be errors, and are at most `top`), on one round more than it has blocks; its
-- ranges then follow one another from its start up to exactly its end.
pub do_sync_done :
    (fuel : ℕ) (w : Worker) (top : ℕ) (answers : List (Option ℕ))
    → 0 < w.end
    → w.start ≤ w.end
    → w.start + w.stable < word
    → top + 1 < word
    → w.end ≤ top
    → AnswersAtMost top answers
    → Reaches (w.end + w.stable) answers
    → w.end < w.start + fuel
    → let (ranges, done) = do_sync fuel w answers in
      (done ≡ true) × Consecutive w.start w.end ranges
unfolding do_sync
do_sync_done fuel w top answers he hle hs ht h a r enough =
    let done = sync_loop_done fuel w w.start w.end top answers he hle hs ht h a (inr r) enough in
    let (b, chain, _, limit, complete) =
      sync_loop-Covers fuel w w.start w.end top answers hs ht h a in
    let all : b ≡ w.end = omega (arith, limit he hle, complete done) in
    (done, subst (λ m. Consecutive w.start m (sync_loop fuel w w.start w.end answers).0) all chain)
