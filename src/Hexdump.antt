-- ===== src/Hexdump.antt =====
-- src/utils/hexdump.rs: bytes as text for a reader, on a little-endian machine. Writing to a string
-- does not fail. An index or a slice out of range panics.
pub mod Bounds
use evtx.Prelude.{
  ltb, leb, ◌==◌, if◌then◌else◌, length, get_elem?, take, drop, replicate, Text, codes, ℕ, zero,
  suc, ◌+◌, ◌-◌, ◌*◌, ◌/◌, ◌%◌, min, Bool, ◌&&◌, ◌||◌, Option, none, some, List, [], ◌∷◌, ◌++◌, map,
}
use evtx.Err.{Outcome, ok, panic, out_of_fuel, bind}
use evtx.Prelude.Int.{ℤ}
use evtx.Chunk.{checked_slice}

abbrev lower_digit : ℕ → ℕ
lower_digit d = if ltb d 10 then 48 + d else 87 + d

-- The digits to a base from 2 to 16 before `acc`, for a number below base^fuel.
unfoldable pub radix_digits : ℕ → ℕ → ℕ → Text → Text
radix_digits base zero n acc = acc
radix_digits base (suc f) n acc =
    let acc' = lower_digit (n % base) ∷ acc in
    let more = radix_digits base f (n / base) acc' in if ltb n base then acc' else more

-- A number that is filled up with zeros to a width.
unfoldable pub padded : ℕ → ℕ → ℕ → Text
unfolding radix_digits
padded base width n = let t = radix_digits base (suc n) n [] in replicate (width - length t) 48 ++ t

-- `char::is_control` of a byte
abbrev pub is_control : ℕ → Bool
is_control c = ltb c 32 || (leb 127 c && ltb c 160)

-- A display is a character: `b`, `c`, `C`, `d`, `o` and `x` have a meaning.
abbrev pub number_of_bytes : ℕ → ℕ
number_of_bytes display = if (display == 98) || (display == 99) || (display == 67) then 1 else 2

-- `write!` of a word. A character is filled up on its right.
unfoldable pub write_word : ℕ → ℕ → Text
unfolding padded
write_word display word =
    if display == 98
    then 32 ∷ padded 8 3 word
    else if display == 99
    then (if is_control (word % 256) then 32 ∷ [] else 32 ∷ word % 256 ∷ 32 ∷ 32 ∷ [])
    else if display == 67
    then 32 ∷ padded 16 2 word
    else if display == 111
    then 32 ∷ padded 8 6 word ++ (32 ∷ [])
    else if display == 100
    then 32 ∷ 32 ∷ padded 10 5 word ++ (32 ∷ [])
    else 32 ∷ padded 16 4 word

abbrev pub word_size : ℕ → ℕ
word_size display =
    if (display == 98) || (display == 99)
    then 4
    else if display == 67
    then 3
    else if (display == 111) || (display == 100)
    then 8
    else 5

abbrev pub words_of : ℕ → ℕ → ℕ
words_of len bytes = if len % bytes == 0 then len / bytes else len / bytes + 1

-- The padding of a short line, and the line with dots for control characters. A line has at
-- most 16 bytes.
unfoldable pub ascii_part : List ℕ → ℕ → ℕ → Text
ascii_part line display bytes =
    (if ltb 0 (length line % 16)
      then replicate (word_size display * ((16 - length line) / bytes)) 32
      else [])
    ++ (32 ∷ 32 ∷ map (λ c. if is_control c then 46 else c) line)

module _ {E : Type 0} where
  abbrev pub index_of : Option ℕ → Outcome E ℕ
  index_of none = panic
  index_of (some c) = ok c

  -- `line[i]`
  abbrev pub index : List ℕ → ℕ → Outcome E ℕ
  index line i = index_of (get_elem? line i)

  -- The word at `b`: a pair of bytes is read as big-endian and its bytes are swapped.
  unfoldable pub word_at : List ℕ → ℕ → ℕ → Outcome E ℕ
  word_at line bytes b =
      if bytes == 1
      then index line b
      else bind (index line (bytes * b)) λ hi.
        if length line == bytes * b + 1
        then ok hi
        else bind (index line (bytes * b + 1)) λ lo. ok (lo * 256 + hi)

  -- `for b in 0..words`, from `b` on.
  unfoldable pub print_words : List ℕ → ℕ → ℕ → ℕ → ℕ → Outcome E Text
  unfolding word_at write_word
  print_words line display bytes b zero = ok []
  print_words line display bytes b (suc k) = bind (word_at line bytes b) λ word.
      bind (print_words line display bytes (suc b) k) λ rest. ok (write_word display word ++ rest)

  unfoldable pub print_line : List ℕ → ℕ → ℕ → ℕ → Outcome E Text
  unfolding print_words ascii_part padded
  print_line line address display bytes =
      bind (print_words line display bytes 0 (words_of (length line) bytes)) λ words. ok (
        (10 ∷ padded 16 8 address)
        ++ ((58 ∷ words) ++ (if display == 99 then [] else ascii_part line display bytes)))

  -- The loop of `hexdump`: 16 bytes a round, so that the fuel need not exceed the bytes by more
  -- than one.
  unfoldable pub hexdump_loop : ℕ → List ℕ → ℕ → ℕ → ℕ → Outcome E Text
  unfolding print_line checked_slice
  hexdump_loop zero bytes offset display address = out_of_fuel
  hexdump_loop (suc f) bytes offset display address =
      let rest = hexdump_loop f bytes offset display (address + 16) in
      if leb address (length bytes)
      then bind (checked_slice bytes address (min (address + 16) (length bytes))) (λ line_bytes.
        bind (print_line line_bytes (address + offset) display (number_of_bytes display))
          λ line. bind rest λ lines. ok (line ++ lines))
      else ok []

  unfoldable pub hexdump : List ℕ → ℕ → ℕ → Outcome E Text
  unfolding hexdump_loop
  hexdump bytes offset display = hexdump_loop (suc (suc (length bytes))) bytes offset display 0

-- `seek(SeekFrom::Current(displacement))`, which fails before the start.
abbrev pub seek_current : ℕ → ℤ → Option ℕ
seek_current at (ℤ.pos n) = some (at + n)
seek_current at (ℤ.negsuc n) = if leb (suc n) at then some (at - suc n) else none

-- The text of `dump_stream` for its 100 bytes.
unfoldable pub framed : {E : Type 0} → List ℕ → Outcome E Text
unfolding hexdump padded
framed bytes = bind (index bytes 0) λ first. bind (hexdump bytes 0 67) λ dump. ok (
    codes "\n\n---------------------------------------------------------------------------\n"
    ++ (codes "Current Value "
        ++ (padded 16 2 first
            ++ (codes "\n              --\n"
                ++ (dump
                    ++ codes
                        "\n----------------------------------------------------------------------------\n")))))

-- `dump_stream` on a stream in memory and its position: the text and the position behind what was
-- read, or `none` where seeking fails.
unfoldable pub dump_stream : {E : Type 0} → List ℕ → ℕ → ℤ → Option (Outcome E Text × ℕ)
unfolding framed
dump_stream stream at lookbehind = elim (seek_current at lookbehind) [
  | none ↦ none
  | some from ↦
      let read = take 100 (drop from stream) in
      some (framed (read ++ replicate (100 - length read) 0), from + length read)
]
