-- ===== src/Syncer/Coverage.antt =====
-- The ranges of a worker's loop: consecutive from its start, stable, and complete up to its end.
use anytoken_distribution.Base.{
  ℕ, subst, zero, suc, ◌+◌, ◌≤◌, ◌<◌, ◌≡◌, refl, ◌⊎◌, inl, inr, Option, none, some, List, [], ◌∷◌,
  Bool, true, false, leb, add64, word, arith, leb→le, Bool-cases, Option-cases,
}
use anytoken_distribution.Syncer.Dispatch.{Worker}
use anytoken_distribution.Syncer.Loop.{await_stable, range_last, is_done, sync_loop, do_sync}

-- Ranges [x, y] that follow one another from `a` up to, and without, `b`.
abbrev pub Consecutive : ℕ → ℕ → List (ℕ × ℕ) → Type 0
Consecutive a b [] = a ≡ b
Consecutive a b ((x, y) ∷ ranges) = (x ≡ a) × (x ≤ y) × Consecutive (y + 1) b ranges

-- No range reaches above `top`, less the stable distance.
abbrev pub AllStable : ℕ → ℕ → List (ℕ × ℕ) → Type 0
AllStable stable top [] = Unit
AllStable stable top ((x, y) ∷ ranges) = (y + stable ≤ top) × AllStable stable top ranges

-- Every answer of the node is at most `top`.
abbrev pub AnswersAtMost : ℕ → List (Option ℕ) → Type 0
AnswersAtMost top [] = Unit
AnswersAtMost top (none ∷ answers) = AnswersAtMost top answers
AnswersAtMost top (some n ∷ answers) = (n ≤ top) × AnswersAtMost top answers

-- The node answers at some time with at least `n`.
abbrev pub Reaches : ℕ → List (Option ℕ) → Type 0
Reaches m [] = ⊥
Reaches m (none ∷ answers) = Reaches m answers
Reaches m (some n ∷ answers) = (m ≤ n) ⊎ Reaches m answers

-- What holds of the answer that the wait ends with.
abbrev pub Awaited : ℕ → ℕ → Option (ℕ × List (Option ℕ)) → Type 0
Awaited needed top none = Unit
Awaited needed top (some (latest, answers)) =
    (needed ≤ latest) × (latest ≤ top) × AnswersAtMost top answers

pub await_stable-Awaited :
    (needed latest top : ℕ) (answers : List (Option ℕ))
    → latest ≤ top
    → AnswersAtMost top answers
    → Awaited needed top (await_stable needed latest answers)
unfolding await_stable
await_stable-Awaited needed latest top [] h a = elim (Bool-cases (leb needed latest)) [
  | inl e ↦ rw e (leb→le needed latest e, h, a)
  | inr e ↦ rw e tt
]
await_stable-Awaited needed latest top (none ∷ answers) h a =
    elim (Bool-cases (leb needed latest)) [
      | inl e ↦ rw e (leb→le needed latest e, h, a)
      | inr e ↦ rw e (await_stable-Awaited needed latest top answers h a)
    ]
await_stable-Awaited needed latest top (some n ∷ answers) h a =
    elim (Bool-cases (leb needed latest)) [
      | inl e ↦ rw e (leb→le needed latest e, h, a)
      | inr e ↦ rw e (await_stable-Awaited needed n top answers a.0 a.1)
    ]

pub range_last_bounds :
    (w : Worker) (height latest top : ℕ)
    → height + w.stable ≤ latest
    → latest ≤ top
    → top + 1 < word
    → is_done w height ≡ false
    → (height ≤ range_last w latest)
      × (range_last w latest + w.stable ≤ top)
      × (0 < w.end → range_last w latest + 1 ≤ w.end)
unfolding range_last
range_last_bounds w height latest top h le small e = ground arith

is_done-end : (w : Worker) (height : ℕ) → is_done w height ≡ true → (0 < w.end) × (w.end ≤ height)
is_done-end w height e = ground arith

-- The ranges of a run and whether it has ended, from the block `a`.
abbrev pub Covers : Worker → ℕ → ℕ → List (ℕ × ℕ) × Bool → Type 0
Covers w a top (ranges, done) =
    (b : ℕ) × Consecutive a b ranges
    × AllStable w.stable top ranges
    × (0 < w.end → a ≤ w.end → b ≤ w.end)
    × (done ≡ true → (0 < w.end) × (w.end ≤ b))

Covers-step :
    (w : Worker) (height last top : ℕ) (rest : List (ℕ × ℕ) × Bool)
    → height ≤ last
    → last + w.stable ≤ top
    → (0 < w.end → last + 1 ≤ w.end)
    → Covers w (last + 1) top rest
    → Covers w height top ((height, last) ∷ rest.0, rest.1)
Covers-step w height last top rest up stable under (b, chain, all, limit, complete) =
    (b, (refl, up, chain), (stable, all), λ p q. limit p (under p), complete)

pub sync_loop-Covers :
    (fuel : ℕ) (w : Worker) (height latest top : ℕ) (answers : List (Option ℕ))
    → height + w.stable < word
    → top + 1 < word
    → latest ≤ top
    → AnswersAtMost top answers
    → Covers w height top (sync_loop fuel w height latest answers)
unfolding sync_loop
sync_loop-Covers zero w height latest top answers hs ht h a =
    (height, refl, tt, λ _ le. le, λ e. cc)
sync_loop-Covers (suc fuel) w height latest top answers hs ht h a =
    elim (Bool-cases (is_done w height)) [
      | inl e ↦ rw (e, sync_loop) (height, refl, tt, λ _ le. le, λ _. is_done-end w height e)
      | inr e ↦ elim (Option-cases (await_stable (add64 height w.stable) latest answers)) [
        | inl stuck ↦ rw (e, stuck, sync_loop) (height, refl, tt, λ _ le. le, λ c. cc)
        | inr ((latest', answers'), found) ↦
            let (enough, le, a') =
              rw found at (await_stable-Awaited (add64 height w.stable) latest top answers h a) in
            let (up, stable, under) =
              range_last_bounds w height latest' top (omega arith) le ht e in
            let next : add64 (range_last w latest') 1 ≡ range_last w latest' + 1 =
              omega (arith, stable) in
            let rest = sync_loop fuel w (add64 (range_last w latest') 1) latest' answers' in
            let later =
              sync_loop-Covers fuel w (add64 (range_last w latest') 1) latest' top answers'
                (omega (arith, stable)) ht le a' in
            rw (e, found, sync_loop)
              (Covers-step w height (range_last w latest') top rest up stable under
                (subst (λ m. Covers w m top rest) next later))
      ]
    ]

-- doSync, at any time, with any answers of the node, errors among them, that are at most `top`, for a
-- worker whose end, if it has one, is at most `top` as well, and with heights that do not overflow:
-- the ranges that it has passed to syncRange are not empty and follow one another from the worker's
-- start; none reaches above `top` less the stable distance, nor beyond the worker's end, if it has one
-- that is not below its start; and a loop that has ended has an end, and reached it.
pub do_sync-Covers :
    (fuel : ℕ) (w : Worker) (top : ℕ) (answers : List (Option ℕ))
    → w.start + w.stable < word
    → top + 1 < word
    → w.end ≤ top
    → AnswersAtMost top answers
    → Covers w w.start top (do_sync fuel w answers)
unfolding do_sync
do_sync-Covers fuel w top answers hs ht h a =
    sync_loop-Covers fuel w w.start w.end top answers hs ht h a
