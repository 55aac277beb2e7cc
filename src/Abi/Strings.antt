-- ===== src/Abi/Strings.antt =====
-- callapi/utils.go: packing of texts and unpacking of them. A text is the list of its bytes.
use anytoken_distribution.Base.{
  ℕ, zero, suc, ◌-◌, ◌/◌, Option, none, some, List, [], ◌∷◌, ◌++◌, length, take, drop, Bool, ◌||◌,
  ltb, if◌then◌else◌, add64, mul64,
}
use anytoken_distribution.Outcome.{Outcome, returns, panics}

-- The 32 bytes of a number, which common.LeftPadBytes makes of those of big.Int, and
-- common.GetUint64 of 32 bytes at an offset: the number, and whether it overflows.
pub record Words : Type 0 where
  pub length_word : ℕ → List ℕ
  pub get_uint64 : List ℕ → ℕ → ℕ × Bool

abbrev pub zeros : ℕ → List ℕ
zeros zero = []
zeros (suc n) = 0 ∷ zeros n

-- Go's `copy`.
unfoldable pub copy : List ℕ → List ℕ → List ℕ
copy [] src = []
copy (d ∷ dst) [] = d ∷ dst
copy (d ∷ dst) (s ∷ src) = s ∷ copy dst src

abbrev pub packing_len : ℕ → ℕ
packing_len str_len = mul64 (add64 str_len 31 / 32) 32

unfoldable pub pack_string_to_abi_encoded : Words → List ℕ → List ℕ
unfolding copy
pack_string_to_abi_encoded words content =
    let str_len = length content in
    let result = copy (zeros (add64 32 (packing_len str_len))) (words.length_word str_len) in
    take 32 result ++ copy (drop 32 result) content

-- `data[low:high]`
unfoldable pub slice : List ℕ → (low high : ℕ) → Outcome (List ℕ)
slice bytes low high =
    if ltb high low || ltb (length bytes) high
    then panics
    else returns (take (high - low) (drop low bytes))

abbrev pub some_slice : Outcome (List ℕ) → Outcome (Option (List ℕ))
some_slice panics = panics
some_slice (returns bytes) = returns (some bytes)

-- The text once its length is read; `none` is the error.
unfoldable pub unpack_of_length : List ℕ → (offset : ℕ) → ℕ × Bool → Outcome (Option (List ℕ))
unfolding slice
unpack_of_length bytes offset (len, overflow) =
    let start = add64 offset 32 in
    if overflow || ltb (length bytes) (add64 start len)
    then returns none
    else some_slice (slice bytes start (add64 start len))

unfoldable pub unpack_abi_encoded_string : Words → List ℕ → (offset : ℕ) → Outcome (Option (List ℕ))
unfolding unpack_of_length
unpack_abi_encoded_string words bytes offset =
    if ltb (length bytes) (add64 offset 32)
    then returns none
    else unpack_of_length bytes offset (words.get_uint64 bytes offset)

unfoldable pub unpack_at : Words → List ℕ → ℕ × Bool → Outcome (Option (List ℕ))
unfolding unpack_abi_encoded_string
unpack_at words bytes (offset, overflow) =
    if overflow || ltb (length bytes) (add64 offset 32)
    then returns none
    else unpack_abi_encoded_string words bytes offset

unfoldable pub unpack_abi_encoded_string_in_index :
    Words → List ℕ → (index : ℕ) → Outcome (Option (List ℕ))
unfolding unpack_at
unpack_abi_encoded_string_in_index words bytes index =
    let at = mul64 index 32 in
    if ltb (length bytes) (add64 at 32)
    then returns none
    else unpack_at words bytes (words.get_uint64 bytes at)
