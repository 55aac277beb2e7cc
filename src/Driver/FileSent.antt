-- ===== src/Driver/FileSent.antt =====
-- SendRewardsFromFile as a whole: what it sends, and that the sender has enough for it.
use anytoken_distribution.Base.{
  ℕ, ◌+◌, ◌<◌, ◌≡◌, refl, ap, ◌∙◌, String, Option, none, some, List, [], ◌∷◌, length, All, true,
  false, ◌&&◌, arith, word, Bool-cases, ◌⊎◌, inl, inr, if◌then◌else◌, ◌==◌,
}
use anytoken_distribution.Int.{ℤ, ◌+ℤ◌, int_laws}
use anytoken_distribution.Outcome.{Outcome, returns}
use anytoken_distribution.Reward.Stats.{AccountStat}
use anytoken_distribution.Reward.Slices.{count_all}
use anytoken_distribution.Distribute.Options.{CheckError, DistOption}
use anytoken_distribution.Distribute.Send.{Progress, start_sending, Transaction}
use anytoken_distribution.Distribute.Nonces.{Descending, IsAccounted, HasRoom, payable_sum}
use anytoken_distribution.Driver.Setting.{Setting}
use anytoken_distribution.Driver.Dispatch.{
  DispatchError, unknown_by_what, Dispatched, sender_of, noted, start_dispatch,
}
use anytoken_distribution.Driver.Dispatched.{
  Closes, send_opened-Closes, start-IsAccounted, IsDispatched, all_sent, total_sended,
  payable_total,
}
use anytoken_distribution.Driver.Covered.{IsCovered, AllCovered, AllRead, check_accounts-covers}
use anytoken_distribution.Driver.FileSend.{
  Scaling, FileSendError, send_error, send_checked, send_read, go_on_after, send_files,
  send_rewards_from_file,
}

-- A file that transactions were sent for was covered by what the sender had before it.
abbrev pub IsCoveredIfSent : ℤ → List AccountStat → Progress → Type 0
IsCoveredIfSent balance stats p = (p.transactions ≡ []) ⊎ IsCovered balance stats

-- The files with their runs, in their order; a run that stops has fewer runs than files.
abbrev pub SentCovered : (ℕ → ℤ) → ℕ → List (List AccountStat) → List Progress → Type 0
SentCovered balances i stats [] = Unit
SentCovered balances i [] (p ∷ runs) = ⊥
SentCovered balances i (stat ∷ stats) (p ∷ runs) =
    IsCoveredIfSent (balances i) stat p × SentCovered balances (i + 1) stats runs

-- `loops` after more runs; the last comes first.
abbrev pub onto : List Progress → List Progress → List Progress
onto [] loops = loops
onto (p ∷ runs) loops = onto runs (p ∷ loops)

-- What holds of the end of a file.
abbrev ClosesFile :
    Setting
    → DistOption
    → ℤ
    → List AccountStat
    → (more : ℕ) → List Transaction
    → Option FileSendError × Progress
    → Type 0
ClosesFile s opt balance stats more before (failure, p) =
    Closes s opt stats more before (some unknown_by_what, p)
    × (failure ≡ none → p.rewards_sended ≡ payable_sum stats)
    × (failure ≡ none → opt.dry_run ≡ false → IsCovered balance stats)
    × (opt.dry_run ≡ false → IsCoveredIfSent balance stats p)

send_error-ClosesFile :
    (s : Setting) (opt : DistOption) (balance : ℤ) (stats : List AccountStat) (more : ℕ)
    (before : List Transaction) (r : Option DispatchError × Progress)
    → Closes s opt stats more before r
    → (opt.dry_run ≡ false → IsCovered balance stats)
    → ClosesFile s opt balance stats more before (send_error r)
send_error-ClosesFile s opt balance stats more before (none, p) (h, lt, acc, total) covers =
    ((h, lt, acc, λ c. cc), (λ _. total refl), (λ _. covers), λ wet. inr (covers wet))
send_error-ClosesFile s opt balance stats more before (some e, p) (h, lt, acc, total) covers =
    ((h, lt, acc, λ c. cc), (λ c. cc), (λ c wet. covers wet), λ wet. inr (covers wet))

send_checked-ClosesFile :
    (s : Setting) (opt : DistOption) (balance : ℤ) (i nonce more : ℕ) (stats : List AccountStat)
    (before : List Transaction) (check : Option CheckError)
    → Descending nonce before
    → nonce + (length stats + more) < word
    → ((j : ℕ) → HasRoom (length stats + more) (s.nodes i j))
    → (check ≡ none → opt.dry_run ≡ false → IsCovered balance stats)
    → ClosesFile s opt balance stats more before (send_checked s opt i nonce (check, stats))
unfolding send_checked start_sending
send_checked-ClosesFile s opt balance i nonce more stats before (some e) h lt hn covers = (
  (h, omega arith, start-IsAccounted (sender_of s opt) nonce, λ c. cc),
  (λ c. cc),
  (λ c wet. cc),
  λ _. inl refl,
)
send_checked-ClosesFile s opt balance i nonce more stats before none h lt hn covers =
    elim (Bool-cases (s.opens i)) [
      | inl opened ↦ rw opened (
          send_error-ClosesFile s opt balance stats more before _
            (send_opened-Closes s opt i stats nonce more before none h lt hn) (covers refl))
      | inr shut ↦ rw shut (
        (h, omega arith, start-IsAccounted (sender_of s opt) nonce, λ c. cc),
        (λ c. cc),
        (λ c wet. cc),
        λ _. inl refl,
      )
    ]

-- What holds after the files so far, and of the run.
abbrev FileTotals :
    Setting
    → DistOption
    → (ℕ → ℤ)
    → ℕ
    → List (List AccountStat)
    → Dispatched
    → Option FileSendError × Dispatched
    → Type 0
FileTotals s opt balances i stats d (failure, d') =
    IsDispatched s opt 0 d'
    × (failure ≡ none → total_sended d'.loops ≡ total_sended d.loops +ℤ payable_total stats)
    × (failure ≡ none → opt.dry_run ≡ false → AllCovered balances i stats)
    × (opt.dry_run ≡ false
        → (runs : List Progress) × (d'.loops ≡ onto runs d.loops)
          × SentCovered balances i stats runs)

go_on_after-FileTotals :
    (s : Setting) (opt : DistOption) (balances : ℕ → ℤ) (i : ℕ) (stat : List AccountStat)
    (stats : List (List AccountStat)) (d : Dispatched) (r : Option FileSendError × Progress)
    (rest : Outcome (Option FileSendError × Dispatched))
    → All (IsAccounted (sender_of s opt)) d.loops
    → ClosesFile s opt (balances i) stat (count_all stats) (all_sent d.loops) r
    → (IsDispatched s opt (count_all stats) (noted r.1 d)
        → (r' : Option FileSendError × Dispatched) × (rest ≡ returns r')
          × FileTotals s opt balances (i + 1) stats (noted r.1 d) r')
    → (r' : Option FileSendError × Dispatched) × (go_on_after r d rest ≡ returns r')
      × FileTotals s opt balances i (stat ∷ stats) d r'
go_on_after-FileTotals s opt balances i stat stats d (some e, p) rest all
      ((h, lt, acc, _), total, covers, sent) later =
    (
      (some e, noted p d),
      refl,
      (
        record { descending = h; room = omega arith; accounted = (acc, all) },
        (λ c. cc),
        (λ c wet. cc),
        λ wet. (p ∷ [], refl, (sent wet, tt)),
      ),
    )
go_on_after-FileTotals s opt balances i stat stats d (none, p) rest all
      ((h, lt, acc, _), total, covers, sent) later =
    let (r', run, (dispatched, sums, covereds, sents)) =
      later (record { descending = h; room = lt; accounted = (acc, all) }) in
    (
      r',
      run,
      (
        dispatched,
        (λ over. rw (sums over, total refl) (omega int_laws)),
        (λ over wet. (covers refl wet, covereds over wet)),
        λ wet. (let (runs, same, all) = sents wet in (p ∷ runs, same, (sent wet, all))),
      ),
    )

send_files-FileTotals :
    (s : Setting) (opt : DistOption) (scaling : Scaling) (balances : ℕ → ℤ) (i : ℕ)
    (names : List String) (stats : List (List AccountStat)) (d : Dispatched)
    → AllRead s opt scaling balances i names stats
    → IsDispatched s opt (count_all stats) d
    → ((i j : ℕ) → HasRoom (count_all stats) (s.nodes i j))
    → (r : Option FileSendError × Dispatched) × (send_files s opt scaling balances i names d
        ≡ returns r)
      × FileTotals s opt balances i stats d r
unfolding send_files send_read
send_files-FileTotals s opt scaling balances i [] [] d reads h hn =
    ((none, d), refl, (h, (λ _. omega int_laws), (λ _ _. tt), λ _. ([], refl, tt)))
send_files-FileTotals s opt scaling balances i [] (stat ∷ stats) d reads h hn = absurd reads
send_files-FileTotals s opt scaling balances i (name ∷ names) [] d reads h hn = absurd reads
send_files-FileTotals s opt scaling balances i (name ∷ names) (stat ∷ stats) d
      ((raw, title, check, read, checked), reads) h hn =
    let r = send_checked s opt i d.nonce (check, stat) in
    let closes =
      send_checked-ClosesFile s opt (balances i) i d.nonce (count_all stats) stat (all_sent d.loops)
        check h.descending h.room (λ j. hn i j)
        (λ (e : check ≡ none) wet.
          check_accounts-covers opt scaling (balances i) raw stat
            (checked ∙ ap (λ c. returns (c, stat)) e) wet) in
    let (r', run, totals) =
      go_on_after-FileTotals s opt balances i stat stats d r
        (send_files s opt scaling balances (i + 1) names (noted r.1 d)) h.accounted closes
        (λ dispatched.
          send_files-FileTotals s opt scaling balances (i + 1) names stats (noted r.1 d) reads
            dispatched (λ i' j n e. omega (arith, hn i' j n e))) in
    (r', rw (read, checked) run, totals)

fits_lem :
    (exchanges inputs outputs : ℕ)
    → inputs ≡ outputs
    → (exchanges ≡ 0) ⊎ (inputs ≡ exchanges)
    → (if exchanges == 0 then inputs == outputs else inputs == exchanges && outputs == exchanges)
      ≡ true
fits_lem exchanges inputs outputs same (inl e) = ground arith
fits_lem exchanges inputs outputs same (inr e) = ground arith

-- SendRewardsFromFile, for as many files as it asks for, which can be read and their rewards scaled,
-- as long as the nonces leave room for all accounts below 2^64: it returns; whether it ends or stops
-- at an error, no two transactions have the same nonce, over all files; and if it ends without an
-- error, it has counted every positive scaled reward, and, unless it is a dry run, the total of the
-- scaled rewards of each file was covered by what the sender had before the file; and if it is not a
-- dry run, however it ends, every file that it has sent a transaction for was covered so.
pub send_rewards_from_file-Totals :
    (s : Setting) (opt : DistOption) (scaling : Scaling) (balances : ℕ → ℤ)
    (inputs outputs : List String) (stats : List (List AccountStat)) (nonce : ℕ)
    → length inputs ≡ length outputs
    → (length opt.exchanges ≡ 0) ⊎ (length inputs ≡ length opt.exchanges)
    → AllRead s opt scaling balances 0 inputs stats
    → nonce + count_all stats < word
    → ((i j : ℕ) → HasRoom (count_all stats) (s.nodes i j))
    → (failure : Option FileSendError) × (d : Dispatched) × (send_rewards_from_file s opt scaling
          balances inputs outputs nonce
        ≡ returns (failure, d))
      × IsDispatched s opt 0 d
      × (failure ≡ none → total_sended d.loops ≡ payable_total stats)
      × (failure ≡ none → opt.dry_run ≡ false → AllCovered balances 0 stats)
      × (opt.dry_run ≡ false
          → (runs : List Progress) × (d.loops ≡ onto runs []) × SentCovered balances 0 stats runs)
unfolding send_rewards_from_file start_dispatch
send_rewards_from_file-Totals s opt scaling balances inputs outputs stats nonce same fits reads room
      hn =
    let (r, run, (dispatched, sums, covers, sents)) =
      send_files-FileTotals s opt scaling balances 0 inputs stats (start_dispatch nonce) reads
        (record { descending = tt; room = room; accounted = tt }) hn in
    (
      r.0,
      r.1,
      rw (fits_lem (length opt.exchanges) (length inputs) (length outputs) same fits) run,
      dispatched,
      (λ over. rw (sums over) (omega int_laws)),
      covers,
      sents,
    )
