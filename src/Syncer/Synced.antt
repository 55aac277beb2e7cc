-- ===== src/Syncer/Synced.antt =====
-- What it means that a range of syncRange is synced: each block was in the database, or has been
-- parsed, once.
use anytoken_distribution.Base.{
  Ascending, Ascending-mono, Ascending-append, ℕ, ◌+◌, ◌≤◌, ◌<◌, ◌≡◌, refl, ap, ◌∙◌, some, List, [],
  ◌∷◌, ◌++◌, All, Bool, true, false, ◌||◌, ◌==◌, ◌⊎◌, inl, inr, arith, contains, contains-append,
  Distinct, Bool-cases, ==_iff,
}
use native.Mathlib.Decide.{dec_lt}
use anytoken_distribution.Syncer.Dispatch.{first_answer}
use anytoken_distribution.Syncer.Range.{Sources}

-- FindBlocksInRange at last answers with distinct numbers from the range, of blocks in the database.
abbrev pub FindsBlocks : (ℕ → Bool) → Sources → Type 0
FindsBlocks in_database sources =
    (from to : ℕ)
    → (mblocks : List ℕ) × (first_answer (sources.find_blocks from to) ≡ some mblocks)
      × Distinct mblocks
      × All (λ n. (from ≤ n) × (n ≤ to) × (in_database n ≡ true)) mblocks

-- BlockByNumber at last answers with a block.
abbrev pub GetsBlocks : Sources → Type 0
GetsBlocks sources =
    (height : ℕ) → (block : ℕ) × (first_answer (sources.get_block height) ≡ some block)

-- Blocks `a` up to `b` exclusive: those parsed rise, and the others are in the database, unless
-- they are to be overwritten.
pub record IsSynced (overwrite : Bool) (in_database : ℕ → Bool) (a b : ℕ) (parsed : List ℕ)
    : Type 0 where
  pub ascending : Ascending a b parsed
  pub complete :
      (h : ℕ)
      → a ≤ h
      → h < b
      → (contains h parsed ≡ true) ⊎ ((overwrite ≡ false) × (in_database h ≡ true))

after : (a h : ℕ) → (h == a) ≡ false → a ≤ h → a + 1 ≤ h
after a h other from = ground arith

or_true : (a : Bool) → (a || true) ≡ true
or_true true = refl
or_true false = refl

module _ (overwrite : Bool) (in_database : ℕ → Bool) where
  pub IsSynced-nil : (a : ℕ) → IsSynced overwrite in_database a a []
  IsSynced-nil a = record { ascending = tt; complete = λ h from to. absurd (omega arith) }

  pub IsSynced-cons :
      (a b : ℕ) (parsed : List ℕ)
      → a < b
      → IsSynced overwrite in_database (a + 1) b parsed
      → IsSynced overwrite in_database a b (a ∷ parsed)
  IsSynced-cons a b parsed lt synced = record {
    ascending = (omega arith, lt, synced.ascending);
    complete = λ h from to. elim (Bool-cases (h == a)) [
      | inl here ↦ inl (rw here refl)
      | inr other ↦ rw other (synced.complete h (after a h other from) to)
    ];
  }

  pub IsSynced-skip :
      (a b : ℕ) (parsed : List ℕ)
      → overwrite ≡ false
      → in_database a ≡ true
      → IsSynced overwrite in_database (a + 1) b parsed
      → IsSynced overwrite in_database a b parsed
  IsSynced-skip a b parsed keeps stored synced = record {
    ascending = Ascending-mono (a + 1) a b parsed (omega arith) synced.ascending;
    complete = λ h from to. elim (Bool-cases (h == a)) [
      | inl here ↦ let same : h ≡ a = (==_iff h a).0 here in inr (keeps, rw same stored)
      | inr other ↦ synced.complete h (after a h other from) to
    ];
  }

  pub IsSynced-append :
      (a b c : ℕ) (xs ys : List ℕ)
      → a ≤ b
      → b ≤ c
      → IsSynced overwrite in_database a b xs
      → IsSynced overwrite in_database b c ys
      → IsSynced overwrite in_database a c (xs ++ ys)
  IsSynced-append a b c xs ys ab bc left right = record {
    ascending = Ascending-append a b c xs ys ab bc left.ascending right.ascending;
    complete = λ h from to. elim (dec_lt h b) [
      | yes low ↦ elim (left.complete h from low) [
        | inl found ↦ inl (contains-append h xs ys ∙ ap (λ t. t || contains h ys) found)
        | inr stored ↦ inr stored
      ]
      | no high ↦ elim (right.complete h (omega arith) to) [
        | inl found ↦
            inl (
              contains-append h xs ys
              ∙ ap (λ t. contains h xs || t) found
              ∙ or_true (contains h xs))
        | inr stored ↦ inr stored
      ]
    ];
  }

  pub IsSynced-stored :
      (a b : ℕ)
      → overwrite ≡ false
      → ((h : ℕ) → a ≤ h → h < b → in_database h ≡ true)
      → IsSynced overwrite in_database a b []
  IsSynced-stored a b keeps stored = record {
    ascending = tt;
    complete = λ h from to. inr (keeps, stored h from to);
  }
