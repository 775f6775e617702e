-- ===== src/Hexdump/Bounds.antt =====
-- src/utils/hexdump.rs never indexes or slices out of range.
use evtx.Prelude.{
  leb, ◌==◌, leb→le, Bool-cases, length, ℕ, zero, suc, ◌+◌, ◌*◌, ◌≤◌, ◌<◌, min, refl, inl, inr,
  ◌||◌, List, [], ◌∷◌, arith,
}
use evtx.Hexdump.{
  number_of_bytes, words_of, index, word_at, print_words, print_line, hexdump_loop, hexdump,
}
use evtx.Err.Success.{IsOk, IsOk-bind}
use evtx.Chunk.{checked_slice}
use evtx.Chunk.Checksum.{checked_slice_lem}

module _ (E : Type 0) where
  index-IsOk : (line : List ℕ) (i : ℕ) → i < length line → IsOk (index {E = E} line i)
  index-IsOk [] i h = absurd (omega (arith, h))
  index-IsOk (c ∷ cs) zero h = (c, refl)
  index-IsOk (c ∷ cs) (suc i) h = index-IsOk cs i (omega (arith, h))

  word_at-byte :
      (line : List ℕ) (b : ℕ) → b < words_of (length line) 1 → IsOk (word_at {E = E} line 1 b)
  unfolding word_at
  word_at-byte line b h = index-IsOk line b (ground (arith, h))

  word_at-pair :
      (line : List ℕ) (b : ℕ) → b < words_of (length line) 2 → IsOk (word_at {E = E} line 2 b)
  unfolding word_at
  word_at-pair line b h =
      let first : 2 * b < length line = ground (arith, h) in
      IsOk-bind _ (index-IsOk line (2 * b) first) λ hi.
        elim (Bool-cases (length line == 2 * b + 1)) [
          | inl c ↦ rw c (hi, refl)
          | inr c ↦
              let second : 2 * b + 1 < length line = ground (arith, first, c) in
              rw c (IsOk-bind _ (index-IsOk line (2 * b + 1) second) λ lo. (_, refl))
        ]

  -- Every word of a line can be read.
  abbrev Readable : List ℕ → ℕ → Type 0
  Readable line bytes =
      (b : ℕ) → b < words_of (length line) bytes → IsOk (word_at {E = E} line bytes b)

  print_words-IsOk :
      (line : List ℕ) (display bytes b k : ℕ)
      → Readable line bytes
      → b + k ≤ words_of (length line) bytes
      → IsOk (print_words {E = E} line display bytes b k)
  unfolding print_words
  print_words-IsOk line display bytes b zero r h = ([], refl)
  print_words-IsOk line display bytes b (suc k) r h =
      let total = words_of (length line) bytes in
      IsOk-bind _ (r b (omega (arith, h))) λ word.
        IsOk-bind _ (print_words-IsOk line display bytes (suc b) k r (omega (arith, h)))
          λ rest. (_, refl)

  Readable-number_of_bytes : (line : List ℕ) (display : ℕ) → Readable line (number_of_bytes display)
  Readable-number_of_bytes line display b h =
      elim (Bool-cases ((display == 98) || (display == 99) || (display == 67))) [
        | inl c ↦ rw c (word_at-byte line b (rw c at h))
        | inr c ↦ rw c (word_at-pair line b (rw c at h))
      ]

  print_line-IsOk :
      (line : List ℕ) (address display : ℕ)
      → IsOk (print_line {E = E} line address display (number_of_bytes display))
  unfolding print_line
  print_line-IsOk line address display =
      IsOk-bind _
        (print_words-IsOk line display (number_of_bytes display) 0
          (words_of (length line) (number_of_bytes display)) (Readable-number_of_bytes line display)
          (omega arith))
        λ words. (_, refl)

  -- The bytes of a line can be sliced out.
  line-IsOk :
      (bytes : List ℕ) (address : ℕ)
      → address ≤ length bytes
      → IsOk (checked_slice {E = E} bytes address (min (address + 16) (length bytes)))
  line-IsOk bytes address h = (_, checked_slice_lem bytes address _ (omega arith) (omega arith))

  hexdump_loop-IsOk :
      (f : ℕ) (bytes : List ℕ) (offset display address : ℕ)
      → suc (length bytes) < address + f
      → 0 < f
      → IsOk (hexdump_loop {E = E} f bytes offset display address)
  unfolding hexdump_loop
  hexdump_loop-IsOk zero bytes offset display address h p = absurd (omega (arith, p))
  hexdump_loop-IsOk (suc f) bytes offset display address h p =
      elim (Bool-cases (leb address (length bytes))) [
        | inr c ↦ rw c ([], refl)
        | inl c ↦
            let le = leb→le address (length bytes) c in
            rw c (
              IsOk-bind _ (line-IsOk bytes address le) λ line_bytes.
                IsOk-bind _ (print_line-IsOk line_bytes (address + offset) display) λ line.
                  IsOk-bind _
                    (hexdump_loop-IsOk f bytes offset display (address + 16) (omega (arith, h, le))
                      (omega (arith, h, le)))
                    λ lines. (_, refl))
      ]

  -- A hexdump of any bytes, from any offset and for any display, comes to its end: no index and no
  -- slice is out of range, and the rounds of the model suffice.
  pub hexdump-IsOk :
      (bytes : List ℕ) (offset display : ℕ) → IsOk (hexdump {E = E} bytes offset display)
  unfolding hexdump
  hexdump-IsOk bytes offset display =
      hexdump_loop-IsOk (suc (suc (length bytes))) bytes offset display 0 (omega arith)
        (omega arith)
