-- ===== src/Abi/Unpacked.antt =====
-- What unpacking does with any bytes, by the true sums.
use anytoken_distribution.Base.{
  ℕ, ◌+◌, ◌-◌, ◌≤◌, ◌<◌, ◌≡◌, refl, ◌∙◌, Option, none, some, List, length, take, drop, Bool, true,
  false, ◌||◌, not, ltb, if◌then◌else◌, add64, word, arith, ge→ltb, lt→ltb,
}
use native.Mathlib.Decide.{dec_lt}
use anytoken_distribution.Outcome.{Outcome, returns, panics}
use anytoken_distribution.Abi.Strings.{Words, slice, unpack_of_length, unpack_abi_encoded_string}

rest_of : (a n : ℕ) → a + n - a ≡ n
rest_of a n = omega arith

-- What is unpacked at an offset where the number `n` stands, by the true sums and not those of 64
-- bits.
abbrev pub unpacked : List ℕ → (offset : ℕ) → ℕ × Bool → Outcome (Option (List ℕ))
unpacked bytes offset (n, overflow) =
    let end = offset + 32 + n in
    if ltb (length bytes) (offset + 32) || overflow
    then returns none
    else if not (ltb (length bytes) end)
    then returns (some (take n (drop (offset + 32) bytes)))
    else if ltb end word
    then returns none
    else panics

unpack_of_length_lem :
    (bytes : List ℕ) (offset n : ℕ) (overflow : Bool)
    → length bytes < word
    → offset + 32 ≤ length bytes
    → n < word
    → unpack_of_length bytes offset (n, overflow) ≡ unpacked bytes offset (n, overflow)
unfolding unpack_of_length slice
unpack_of_length_lem bytes offset n true small room le =
    rw (ge→ltb (length bytes) (offset + 32) room) refl
unpack_of_length_lem bytes offset n false small room le =
    let start : add64 offset 32 ≡ offset + 32 = omega (arith, small, room) in
    elim (dec_lt (offset + 32 + n) word) [
      | yes fits ↦
          let end : add64 (offset + 32) n ≡ offset + 32 + n = omega (arith, fits) in
          elim (dec_lt (length bytes) (offset + 32 + n)) [
            | yes over ↦
                rw
                  (
                    start,
                    end,
                    ge→ltb (length bytes) (offset + 32) room,
                    lt→ltb (length bytes) (offset + 32 + n) over,
                    lt→ltb (offset + 32 + n) word fits,
                  )
                  refl
            | no inside ↦
                rw
                  (
                    start,
                    end,
                    ge→ltb (length bytes) (offset + 32) room,
                    ge→ltb (length bytes) (offset + 32 + n) (omega (arith, inside)),
                    ge→ltb (offset + 32 + n) (offset + 32) (omega arith),
                    rest_of (offset + 32) n,
                  )
                  refl
          ]
      | no wraps ↦
          let end : add64 (offset + 32) n ≡ offset + 32 + n - word =
            omega (arith, wraps, le, small, room) in
          rw
            (
              start,
              end,
              ge→ltb (length bytes) (offset + 32) room,
              ge→ltb (length bytes) (offset + 32 + n - word) (omega (arith, le, room)),
              lt→ltb (offset + 32 + n - word) (offset + 32) (omega (arith, wraps, le)),
              lt→ltb (length bytes) (offset + 32 + n) (omega (arith, wraps, small)),
              ge→ltb (offset + 32 + n) word (omega (arith, wraps)),
            )
            refl
    ]

past_check :
    (words : Words) (bytes : List ℕ) (offset : ℕ)
    → ltb (length bytes) (add64 offset 32) ≡ false
    → unpack_abi_encoded_string words bytes offset
      ≡ unpack_of_length bytes offset (words.get_uint64 bytes offset)
unfolding unpack_abi_encoded_string
past_check words bytes offset e = rw e refl

-- UnpackABIEncodedString of fewer than 2 ^ 64 bytes at an offset that does not wrap: it returns the
-- text if its bytes are all there, and the error if the offset or the length is out of range; but
-- where the end of the text is 2 ^ 64 or more, the check lets it pass and it panics.
pub unpack_abi_encoded_string-unpacked :
    (words : Words) (bytes : List ℕ) (offset : ℕ)
    → length bytes < word
    → offset + 32 < word
    → (words.get_uint64 bytes offset).0 < word
    → unpack_abi_encoded_string words bytes offset
      ≡ unpacked bytes offset (words.get_uint64 bytes offset)
unfolding unpack_abi_encoded_string
unpack_abi_encoded_string-unpacked words bytes offset small near le =
    let start : add64 offset 32 ≡ offset + 32 = omega (arith, near) in
    elim (dec_lt (length bytes) (offset + 32)) [
      | yes short ↦ rw (start, lt→ltb (length bytes) (offset + 32) short) refl
      | no room ↦
          past_check words bytes offset
            (rw start (ge→ltb (length bytes) (offset + 32) (omega (arith, room))))
          ∙ unpack_of_length_lem bytes offset (words.get_uint64 bytes offset).0
              (words.get_uint64 bytes offset).1 small (omega (arith, room)) le
    ]
