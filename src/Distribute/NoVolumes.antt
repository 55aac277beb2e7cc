-- ===== src/Distribute/NoVolumes.antt =====
-- distributer/option.go: updateNoVolumes, which keeps the steps that no exchange has volumes in.
use anytoken_distribution.Base.{
  contains, contains-append, ℕ, ◌≡◌, refl, List, [], ◌∷◌, ◌++◌, Bool, true, false, ◌&&◌, ◌||◌, ap,
  arith, ◌==◌, ==_iff, Bool-cases, inl, inr, if◌then◌else◌,
}

-- The two fields of Option that updateNoVolumes changes.
pub record NoVolumes : Type 0 where
  pub has_no_missing_volumes : Bool
  pub no_volume_start_heights : List ℕ

abbrev pub is_empty : List ℕ → Bool
is_empty [] = true
is_empty (h ∷ heights) = false

-- The inner loop: what it appends.
unfoldable pub same_heights : ℕ → List ℕ → List ℕ
same_heights old [] = []
same_heights old (new ∷ news) =
    let rest = same_heights old news in if old == new then old ∷ rest else rest

unfoldable pub intersection : List ℕ → List ℕ → List ℕ
unfolding same_heights
intersection [] news = []
intersection (old ∷ olds) news = same_heights old news ++ intersection olds news

unfoldable pub update_no_volumes : NoVolumes → List ℕ → NoVolumes
unfolding intersection
update_no_volumes opt news =
    let both = intersection opt.no_volume_start_heights news in
    if opt.has_no_missing_volumes
    then opt
    else if is_empty news
    then record { has_no_missing_volumes = true; no_volume_start_heights = [] }
    else if is_empty opt.no_volume_start_heights
    then record opt { no_volume_start_heights = news }
    else record { has_no_missing_volumes = is_empty both; no_volume_start_heights = both }

-- The calls for the exchanges, in their order.
unfoldable pub update_all : NoVolumes → List (List ℕ) → NoVolumes
unfolding update_no_volumes
update_all opt [] = opt
update_all opt (news ∷ exchanges) = update_all (update_no_volumes opt news) exchanges

abbrev pub nothing_seen : NoVolumes
nothing_seen = record { has_no_missing_volumes = false; no_volume_start_heights = [] }

abbrev pub all_contain : ℕ → List (List ℕ) → Bool
all_contain h [] = true
all_contain h (heights ∷ exchanges) = contains h heights && all_contain h exchanges

and_false : (a : Bool) → false ≡ (a && false)
and_false true = refl
and_false false = refl

and_true : (a : Bool) → a ≡ (a && true)
and_true true = refl
and_true false = refl

and_assoc : (a b c : Bool) → ((a && b) && c) ≡ (a && (b && c))
and_assoc true b c = refl
and_assoc false b c = refl

absorb : (a b : Bool) → (a || (a && b)) ≡ (a && (a || b))
absorb true b = refl
absorb false b = refl

distribute : (a b c : Bool) → ((a && c) || (b && c)) ≡ ((a || b) && c)
distribute true b true = refl
distribute true true false = refl
distribute true false false = refl
distribute false b c = refl

skip :
    (h old new : ℕ) (rest : Bool)
    → (old == new) ≡ false
    → (h == old && rest) ≡ (h == old && (h == new || rest))
skip h old new rest e = ground arith

contains-same_heights :
    (h old : ℕ) (news : List ℕ) → contains h (same_heights old news) ≡ (h == old && contains h news)
unfolding same_heights
contains-same_heights h old [] = and_false (h == old)
contains-same_heights h old (new ∷ news) = elim (Bool-cases (old == new)) [
  | inl e ↦
      let same : old ≡ new = (==_iff old new).0 e in
      rw (e, contains-same_heights h old news, ap (λ x. h == x) same)
        (absorb (h == new) (contains h news))
  | inr e ↦ rw (e, contains-same_heights h old news) (skip h old new (contains h news) e)
]

contains-intersection :
    (h : ℕ) (olds news : List ℕ)
    → contains h (intersection olds news) ≡ (contains h olds && contains h news)
unfolding intersection
contains-intersection h [] news = refl
contains-intersection h (old ∷ olds) news =
    rw
      (
        contains-append h (same_heights old news) (intersection olds news),
        contains-same_heights h old news,
        contains-intersection h olds news,
      )
      (distribute (h == old) (contains h olds) (contains h news))

-- After the lists so far, the flag says whether nothing is left.
abbrev IsFlagged : NoVolumes → Type 0
IsFlagged opt = opt.has_no_missing_volumes ≡ is_empty opt.no_volume_start_heights

-- What one call makes of the flag and of the heights, once a list has been seen.
abbrev Keeps : ℕ → NoVolumes → List ℕ → NoVolumes → Type 0
Keeps h opt news opt' =
    IsFlagged opt'
    × (contains h opt'.no_volume_start_heights
        ≡ (contains h opt.no_volume_start_heights && contains h news))

update_no_volumes-Keeps :
    (h : ℕ) (flag : Bool) (heights news : List ℕ)
    → flag ≡ is_empty heights
    → let opt : NoVolumes = record {
      has_no_missing_volumes = flag;
      no_volume_start_heights = heights;
    } in
      Keeps h opt news (update_no_volumes opt news)
unfolding update_no_volumes
update_no_volumes-Keeps h true [] news e = (refl, refl)
update_no_volumes-Keeps h true (x ∷ heights) news e = cc
update_no_volumes-Keeps h false [] news e = cc
update_no_volumes-Keeps h false (x ∷ heights) [] e = (refl, and_false (contains h (x ∷ heights)))
update_no_volumes-Keeps h false (x ∷ heights) (y ∷ news) e =
    (refl, contains-intersection h (x ∷ heights) (y ∷ news))

update_all-Keeps :
    (h : ℕ) (opt : NoVolumes) (exchanges : List (List ℕ))
    → IsFlagged opt
    → IsFlagged (update_all opt exchanges)
      × (contains h (update_all opt exchanges).no_volume_start_heights
          ≡ (contains h opt.no_volume_start_heights && all_contain h exchanges))
unfolding update_all
update_all-Keeps h opt [] flagged = (flagged, and_true (contains h opt.no_volume_start_heights))
update_all-Keeps h opt (news ∷ exchanges) flagged =
    let heights = opt.no_volume_start_heights in
    let (flagged', kept) =
      update_no_volumes-Keeps h opt.has_no_missing_volumes heights news flagged in
    let (flagged'', all) = update_all-Keeps h (update_no_volumes opt news) exchanges flagged' in
    (
      flagged'',
      rw (all, kept) (and_assoc (contains h heights) (contains h news) (all_contain h exchanges)),
    )

first_update :
    (news : List ℕ)
    → let opt = update_no_volumes nothing_seen news in
      IsFlagged opt × (opt.no_volume_start_heights ≡ news)
unfolding update_no_volumes
first_update [] = (refl, refl)
first_update (x ∷ news) = (refl, refl)

-- updateNoVolumes, called for one or more exchanges in turn: a height is kept if, and only if, it is
-- in the list of every exchange, and hasNoMissingVolumes is set if, and only if, none is kept.
pub update_all-contains :
    (h : ℕ) (news : List ℕ) (exchanges : List (List ℕ))
    → let opt = update_all nothing_seen (news ∷ exchanges) in
      (contains h opt.no_volume_start_heights ≡ all_contain h (news ∷ exchanges))
      × (opt.has_no_missing_volumes ≡ is_empty opt.no_volume_start_heights)
unfolding update_all
update_all-contains h news exchanges =
    let (flagged, same) = first_update news in
    let (flagged', all) =
      update_all-Keeps h (update_no_volumes nothing_seen news) exchanges flagged in
    (rw (all, same) refl, flagged')
