-- ===== src/Reward/Rounding.antt =====
-- DivideRewards: what rounding the parts down loses, and how the second loop gives it back.
use anytoken_distribution.Base.{
  ℕ, suc, ◌+◌, ◌-◌, ◌*◌, ◌≤◌, ◌<◌, ◌≡◌, refl, sym, ap, List, [], ◌∷◌, length, arith, ltb, ltb→lt,
  ltb→ge, ge→ltb, gt→leb, Bool-cases, inl, inr,
}
use anytoken_distribution.Int.{
  ℤ, pos, negsuc, pos_part, neg_part, ◌+ℤ◌, ◌-ℤ◌, ◌*ℤ◌, ◌/ℤ◌, ◌≤ℤ◌, ltb_ℤ, sum, int_laws, *ℤ_parts,
}
use Prim.Native.Nat.{min}
use native.Mathlib.Decide.{dec_lt}
use native.Mathlib.Nat.{mul-le-mul_right, div-eq_of_lt}
use anytoken_distribution.Int.Ring.{+ℤ-*ℤ, *ℤ-+ℤ}
use anytoken_distribution.Int.Division.{div_remainder}
use anytoken_distribution.Reward.Divide.{proportions, spread, mod_ℤ, share_left, divide_rewards}

regroup : {a : ℤ} (q b : ℤ) (r l : ℕ) → a ≡ q +ℤ pos r → a +ℤ (b +ℤ pos l) ≡ q +ℤ b +ℤ pos (r + l)
regroup q b r l e = rw e (omega int_laws)

-- What rounding down loses over a whole list is less than one unit for each member.
proportions_loss :
    (total : ℤ) (k : ℕ) (shares : List ℤ)
    → 0 < k
    → (lost : ℕ) × (lost + length shares ≤ length shares * k)
      × (total *ℤ sum shares ≡ sum (proportions total (pos k) shares) *ℤ pos k +ℤ pos lost)
unfolding proportions sum
proportions_loss total k [] h =
    (0, omega arith, omega (int_laws, *ℤ_parts total (pos 0), *ℤ_parts (pos 0) (pos k)))
proportions_loss total k (share ∷ shares) h =
    let (lost, small, whole) = proportions_loss total k shares h in
    let (r, below, here) = div_remainder (total *ℤ share) k h in
    (
      r + lost,
      omega arith,
      rw
          (
            *ℤ-+ℤ total share (sum shares),
            +ℤ-*ℤ (total *ℤ share /ℤ pos k) (sum (proportions total (pos k) shares)) (pos k),
            whole,
          )
          (regroup (total *ℤ share /ℤ pos k *ℤ pos k)
            (sum (proportions total (pos k) shares) *ℤ pos k) r lost here),
    )

pub length-proportions :
    (total sum_share : ℤ) (shares : List ℤ)
    → length (proportions total sum_share shares) ≡ length shares
unfolding proportions
length-proportions total sum_share [] = refl
length-proportions total sum_share (share ∷ shares) =
    ap suc (length-proportions total sum_share shares)

-- A difference that is a `k`-th part of the loss is below the number of members.
cancel :
    (a b k lost n : ℕ)
    → 0 < k
    → 0 < n
    → a * k ≡ b * k + lost
    → lost + n ≤ n * k
    → (b ≤ a) × (a < b + n)
cancel a b k lost n hk hn e small = (
  grind arith,
  elim (dec_lt a (b + n)) [
    | yes lt ↦ lt
    | no ge ↦ absurd (omega (arith, mul-le-mul_right {m = b + n} {n = a} k (omega arith)))
  ],
)

pub parts_of_eq :
    {a : ℤ} (b : ℤ) (l : ℕ) → a ≡ b +ℤ pos l → pos_part a + neg_part b ≡ pos_part b + neg_part a + l
parts_of_eq b l e = rw e (omega int_laws)

-- The rounded parts fall short of the total by some number of units below the number of members.
shortfall :
    (total : ℤ) (k : ℕ) (shares : List ℤ)
    → 0 < k
    → 0 < length shares
    → sum shares ≡ pos k
    → (left : ℕ) × (left < length shares)
      × (total ≡ sum (proportions total (pos k) shares) +ℤ pos left)
shortfall total k shares hk hn e =
    let (lost, small, whole) = proportions_loss total k shares hk in
    let q = sum (proportions total (pos k) shares) in
    let whole' : total *ℤ pos k ≡ q *ℤ pos k +ℤ pos lost = rw e at whole in
    let scaled : (pos_part total + neg_part q) * k ≡ (pos_part q + neg_part total) * k + lost =
      omega
        (arith, parts_of_eq (q *ℤ pos k) lost whole', *ℤ_parts total (pos k), *ℤ_parts q (pos k)) in
    let (le, lt) =
      cancel (pos_part total + neg_part q) (pos_part q + neg_part total) k lost (length shares) hk
        hn scaled small in
    (
      pos_part total + neg_part q - (pos_part q + neg_part total),
      omega (arith, lt),
      omega (int_laws, le),
    )

pub sum-spread :
    (rest i : ℕ) (rewards : List ℤ)
    → sum (spread (pos 0) rest i rewards) ≡ sum rewards +ℤ pos (min (length rewards) (rest - i))
unfolding spread sum
sum-spread rest i [] = omega int_laws
sum-spread rest i (reward ∷ rewards) = elim (Bool-cases (ltb i rest)) [
  | inl before ↦
      let lt = ltb→lt i rest before in rw (before, sum-spread rest (i + 1) rewards) (omega int_laws)
  | inr after ↦
      let ge = ltb→ge i rest after in rw (after, sum-spread rest (i + 1) rewards) (omega int_laws)
]

spread_nothing : (i : ℕ) (rewards : List ℤ) → spread (pos 0) 0 i rewards ≡ rewards
unfolding spread
spread_nothing i [] = refl
spread_nothing i (reward ∷ rewards) = rw (ge→ltb i 0 (omega arith), spread_nothing (i + 1) rewards)

pub length-spread :
    (avg : ℤ) (rest i : ℕ) (rewards : List ℤ) → length (spread avg rest i rewards) ≡ length rewards
unfolding spread
length-spread avg rest i [] = refl
length-spread avg rest i (reward ∷ rewards) = ap suc (length-spread avg rest (i + 1) rewards)

-- What is left over is below the number of members: nobody gets a whole average part of it.
left_over :
    (left n : ℕ) → left < n → (pos left /ℤ pos n ≡ pos 0) × (mod_ℤ (pos left) (pos n) ≡ pos left)
unfolding ◌/ℤ◌
left_over left n h =
    let none_each : pos left /ℤ pos n ≡ pos 0 = ap pos (div-eq_of_lt h) in
    (none_each, rw none_each (omega (int_laws, *ℤ_parts (pos n) (pos 0))))

length_of_sum : (shares : List ℤ) (k : ℕ) → 0 < k → sum shares ≡ pos k → 0 < length shares
unfolding sum
length_of_sum [] k h e = ground arith
length_of_sum (share ∷ shares) k h e = omega arith

pub pos_of_le : (a : ℤ) → pos 1 ≤ℤ a → (k : ℕ) × (0 < k) × (a ≡ pos k)
pos_of_le (pos k) h = (k, omega arith, refl)
pos_of_le (negsuc k) h = absurd (omega arith)

share_left_lem :
    (total : ℤ) (left : ℕ) (rewards : List ℤ)
    → left < length rewards
    → total ≡ sum rewards +ℤ pos left
    → share_left total rewards ≡ spread (pos 0) left 0 rewards
unfolding share_left
share_left_lem total left rewards below whole =
    let difference : total -ℤ sum rewards ≡ pos left = rw whole (omega int_laws) in
    let (none_each, all_rest) = left_over left (length rewards) below in
    elim (Bool-cases (ltb_ℤ (sum rewards) total)) [
      | inl short ↦ rw (short, difference, all_rest, none_each)
      | inr exact ↦
          let nothing : left ≡ 0 =
            omega (int_laws, ltb→ge _ _ exact, parts_of_eq (sum rewards) left whole) in
          rw (exact, nothing) (sym (spread_nothing 0 rewards))
    ]

-- The two loops of DivideRewards in one formula.
pub divide_rewards_lem :
    (total : ℤ) (k : ℕ) (shares : List ℤ)
    → 0 < k
    → sum shares ≡ pos k
    → let parts = proportions total (pos k) shares in
      (left : ℕ) × (left < length shares)
      × (total ≡ sum parts +ℤ pos left)
      × (divide_rewards total shares ≡ spread (pos 0) left 0 parts)
unfolding divide_rewards
divide_rewards_lem total k shares hk e =
    let (left, below, whole) = shortfall total k shares hk (length_of_sum shares k hk e) e in
    let parts = proportions total (pos k) shares in
    let fits : left < length parts = rw (length-proportions total (pos k) shares) below in
    (left, below, whole, rw (e, gt→leb k 0 hk) (share_left_lem total left parts fits whole))
