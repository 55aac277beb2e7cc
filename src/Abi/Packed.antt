-- ===== src/Abi/Packed.antt =====
-- A packed text is unpacked again.
use anytoken_distribution.Base.{
  ℕ, zero, suc, ◌+◌, ◌-◌, ◌≤◌, ◌<◌, ◌≡◌, refl, sym, ap, ◌∙◌, subst, some, List, [], ◌∷◌, ◌++◌,
  length, length-append, append_assoc, take, drop, false, add64, word, arith, ge→ltb,
}
use anytoken_distribution.Outcome.{returns}
use anytoken_distribution.Abi.Strings.{
  Words, zeros, copy, packing_len, pack_string_to_abi_encoded, unpack_abi_encoded_string,
}
use anytoken_distribution.Abi.Unpacked.{unpacked, unpack_abi_encoded_string-unpacked}

zeros_same : (m n : ℕ) → m ≡ n → zeros m ≡ zeros n
zeros_same m n e = ap zeros e

length-zeros : (n : ℕ) → length (zeros n) ≡ n
length-zeros zero = refl
length-zeros (suc n) = ap suc (length-zeros n)

copy-zeros : (src : List ℕ) (k n : ℕ) → n ≡ length src + k → copy (zeros n) src ≡ src ++ zeros k
unfolding copy
copy-zeros [] zero zero e = refl
copy-zeros [] zero (suc n) e = absurd (omega (arith, e))
copy-zeros [] (suc k) zero e = absurd (omega (arith, e))
copy-zeros [] (suc k) (suc n) e = zeros_same (suc n) (suc k) (omega (arith, e))
copy-zeros (s ∷ src) k zero e = absurd (omega (arith, e))
copy-zeros (s ∷ src) k (suc n) e = ap (λ rest. s ∷ rest) (copy-zeros src k n (omega (arith, e)))

take-append : (xs ys : List ℕ) (n : ℕ) → n ≡ length xs → take n (xs ++ ys) ≡ xs
take-append [] [] zero e = refl
take-append [] (y ∷ ys) zero e = refl
take-append [] ys (suc n) e = absurd (omega (arith, e))
take-append (x ∷ xs) ys zero e = absurd (omega (arith, e))
take-append (x ∷ xs) ys (suc n) e = ap (λ rest. x ∷ rest) (take-append xs ys n (omega (arith, e)))

drop-append : (xs ys : List ℕ) (n : ℕ) → n ≡ length xs → drop n (xs ++ ys) ≡ ys
drop-append [] [] zero e = refl
drop-append [] (y ∷ ys) zero e = refl
drop-append [] ys (suc n) e = absurd (omega (arith, e))
drop-append (x ∷ xs) ys zero e = absurd (omega (arith, e))
drop-append (x ∷ xs) ys (suc n) e = drop-append xs ys n (omega (arith, e))

-- The encoding has 32 bytes for each number, and reads it back wherever it stands.
pub record Encodes (words : Words) : Type 0 where
  pub full : (n : ℕ) → length (words.length_word n) ≡ 32
  pub reads :
      (before after : List ℕ) (n : ℕ)
      → n < word
      → words.get_uint64 (before ++ (words.length_word n ++ after)) (length before) ≡ (n, false)

inside :
    (bytes content : List ℕ) (offset n : ℕ)
    → offset + 32 + n ≤ length bytes
    → take n (drop (offset + 32) bytes) ≡ content
    → unpacked bytes offset (n, false) ≡ returns (some content)
inside bytes content offset n room rest =
    rw
      (
        ge→ltb (length bytes) (offset + 32) (omega (arith, room)),
        ge→ltb (length bytes) (offset + 32 + n) room,
        rest,
      )
      refl

module _ (words : Words) (encodes : Encodes words) where
  pack_shape :
      (content : List ℕ)
      → length content + 64 < word
      → (k : ℕ) × (k ≤ 31)
        × (pack_string_to_abi_encoded words content
            ≡ words.length_word (length content) ++ (content ++ zeros k))
  unfolding pack_string_to_abi_encoded
  pack_shape content small =
      let n = length content in
      let w = words.length_word n in
      let p = packing_len n in
      let enough : n ≤ p = omega (arith, small) in
      let whole : copy (zeros (add64 32 p)) w ≡ w ++ zeros p =
        copy-zeros w p (add64 32 p) (omega (arith, encodes.full n, small)) in
      (
        p - n,
        omega arith,
        rw
            (
              whole,
              take-append w (zeros p) 32 (sym (encodes.full n)),
              drop-append w (zeros p) 32 (sym (encodes.full n)),
              copy-zeros content (p - n) p (omega (arith, enough)),
            )
            refl,
      )

  -- UnpackABIEncodedString returns the text that PackStringToABIEncoded packed, wherever in the
  -- bytes the packed text starts, where these are fewer than 2 ^ 64.
  pub unpack-pack :
      (before content : List ℕ)
      → length before + length content + 96 < word
      → unpack_abi_encoded_string words
          (before ++ pack_string_to_abi_encoded words content)
          (length before)
        ≡ returns (some content)
  unpack-pack before content small =
      let n = length content in
      let offset = length before in
      let w = words.length_word n in
      let bytes = before ++ pack_string_to_abi_encoded words content in
      let (k, less, shape) = pack_shape content (omega (arith, small)) in
      let whole : bytes ≡ (before ++ w) ++ (content ++ zeros k) =
        ap (λ packed. before ++ packed) shape ∙ sym (append_assoc before w (content ++ zeros k)) in
      let reads : words.get_uint64 bytes offset ≡ (n, false) =
        ap (λ packed. words.get_uint64 (before ++ packed) offset) shape
        ∙ encodes.reads before (content ++ zeros k) n (omega (arith, small)) in
      let start : length (before ++ w) ≡ offset + 32 =
        omega (arith, length-append before w, encodes.full n) in
      let room : length bytes ≡ offset + 32 + n + k =
        ap length whole
        ∙ omega (
          arith,
          length-append (before ++ w) (content ++ zeros k),
          length-append content (zeros k),
          length-zeros k,
          start,
        ) in
      let rest : take n (drop (offset + 32) bytes) ≡ content =
        ap (λ b. take n (drop (offset + 32) b)) whole
        ∙ ap (λ b. take n b)
            (drop-append (before ++ w) (content ++ zeros k) (offset + 32) (sym start))
        ∙ take-append content (zeros k) n refl in
      unpack_abi_encoded_string-unpacked words bytes offset (omega (arith, room, less, small))
        (omega (arith, small)) (subst (λ read. read.0 < word) (sym reads) (omega (arith, small)))
      ∙ ap (λ read. unpacked bytes offset read) reads
      ∙ inside bytes content offset n (omega (arith, room)) rest
