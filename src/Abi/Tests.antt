-- ===== src/Abi/Tests.antt =====
-- A packed text, and a length that wraps.
use anytoken_distribution.Base.{
  ℕ, ◌-◌, ◌^◌, ◌≡◌, refl, ap, Option, none, some, List, [], ◌∷◌, ◌++◌, length, get_elem?, false,
  arith,
}
use anytoken_distribution.Outcome.{returns, panics}
use anytoken_distribution.Abi.Strings.{
  Words, zeros, copy, pack_string_to_abi_encoded, slice, unpack_of_length,
  unpack_abi_encoded_string, unpack_abi_encoded_string_in_index, unpack_at,
}
use anytoken_distribution.Abi.Unpacked.{unpacked, unpack_abi_encoded_string-unpacked}
use anytoken_distribution.Abi.Packed.{Encodes, unpack-pack}

abbrev or_zero : Option ℕ → ℕ
or_zero none = 0
or_zero (some n) = n

-- Words whose first digit holds the number.
abbrev words : Words
words = record {
  length_word = λ n. n ∷ zeros 31;
  get_uint64 = λ bytes offset. (or_zero (get_elem? bytes offset), false);
}

first_digit :
    (before after : List ℕ) (n : ℕ) → or_zero (get_elem? (before ++ n ∷ after) (length before)) ≡ n
first_digit [] after n = refl
first_digit (x ∷ before) after n = first_digit before after n

words-Encodes : Encodes words
words-Encodes = record {
  full = λ n. refl;
  reads = λ before after n small. ap (λ m. (m, false)) (first_digit before (zeros 31 ++ after) n);
}

unpack-pack_example :
    unpack_abi_encoded_string words
      (9 ∷ 8 ∷ [] ++ pack_string_to_abi_encoded words (65 ∷ 78 ∷ 89 ∷ []))
      2
    ≡ returns (some (65 ∷ 78 ∷ 89 ∷ []))
unpack-pack_example = unpack-pack words words-Encodes (9 ∷ 8 ∷ []) (65 ∷ 78 ∷ 89 ∷ []) (omega arith)

-- A word at which a text of 2 ^ 64 - 1 bytes would start.
abbrev wrapping : List ℕ
wrapping = (2 ^ 64 - 1) ∷ zeros 63

unpack_abi_encoded_string-unpacked_example :
    unpack_abi_encoded_string words wrapping 0 ≡ unpacked wrapping 0 (words.get_uint64 wrapping 0)
unpack_abi_encoded_string-unpacked_example =
    unpack_abi_encoded_string-unpacked words wrapping 0 (omega arith) (omega arith) (omega arith)

unpack_wrapping : unpack_abi_encoded_string words wrapping 0 ≡ panics
unfolding unpack_abi_encoded_string unpack_of_length slice
unpack_wrapping = refl

unpack-index :
    unpack_abi_encoded_string_in_index words
      (32 ∷ zeros 31 ++ pack_string_to_abi_encoded words (65 ∷ []))
      0
    ≡ returns (some (65 ∷ []))
unfolding unpack_abi_encoded_string_in_index unpack_at unpack_abi_encoded_string unpack_of_length
    slice pack_string_to_abi_encoded copy
unpack-index = refl
