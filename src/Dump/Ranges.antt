-- ===== src/Dump/Ranges.antt =====
-- The ranges of src/bin/evtx_dump.rs are read back from their text.
use evtx.Prelude.{
  ltb, ◌==◌, lt→ltb, le→leb, ==_iff, Bool-cases, length, All, Text, ℕ, ◌+◌, ◌-◌, ◌*◌, ◌^◌, ◌≤◌, ◌<◌,
  ◌≡◌, refl, ap, ◌∙◌, inl, inr, true, false, some, List, [], ◌∷◌, ◌++◌, map, arith,
}
use evtx.Display.Decimal.{
  of_digits, of_digits-nat_to_string, Digits, nat_to_string-Digits, length-nat_to_string,
}
use evtx.Dump.{
  split, parse_digits, parse_usize, range_of_numbers, contains_char, range_from_str, ranges_of,
  ranges_from_str,
}
use evtx.Display.{nat_to_string, join}

-- No character of the text is the separator.
abbrev Free : ℕ → Text → Type 0
Free separator = All (λ c. (c == separator) ≡ false)

split-Free : (separator : ℕ) (t : Text) → Free separator t → split separator t ≡ t ∷ []
unfolding split
split-Free separator [] h = refl
split-Free separator (c ∷ cs) (h, hs) = rw (h, split-Free separator cs hs) refl

split-append :
    (separator : ℕ) (t rest : Text)
    → Free separator t
    → split separator (t ++ (separator ∷ rest)) ≡ t ∷ split separator rest
unfolding split
split-append separator [] rest h = rw ((==_iff separator separator).1 refl) refl
split-append separator (c ∷ cs) rest (h, hs) = rw (h, split-append separator cs rest hs) refl

Free-Digits : (separator : ℕ) (t : Text) → separator < 48 → Digits t → Free separator t
Free-Digits separator [] h d = tt
Free-Digits separator (c ∷ cs) h ((low, _), ds) =
    (ground (arith, h, low), Free-Digits separator cs h ds)

Free-append :
    (separator : ℕ) (s t : Text) → Free separator s → Free separator t → Free separator (s ++ t)
Free-append separator [] t h h' = h'
Free-append separator (c ∷ cs) t (h, hs) h' = (h, Free-append separator cs t hs h')

of_digits_le : (acc : ℕ) (t : Text) → acc ≤ of_digits acc t
of_digits_le acc [] = omega arith
of_digits_le acc (c ∷ cs) = let le = of_digits_le (acc * 10 + (c - 48)) cs in omega (arith, le)

parse_digits-Digits :
    (acc : ℕ) (t : Text)
    → Digits t
    → of_digits acc t < 2 ^ 64
    → parse_digits acc t ≡ some (of_digits acc t)
unfolding parse_digits
parse_digits-Digits acc [] d h = refl
parse_digits-Digits acc (c ∷ cs) ((low, high), ds) h =
    let acc' = acc * 10 + (c - 48) in
    let fits : ltb acc' (2 ^ 64) ≡ true =
      lt→ltb acc' (2 ^ 64) (omega (arith, of_digits_le acc' cs, h)) in
    rw (le→leb 48 c low, lt→ltb c 58 high, fits) (parse_digits-Digits acc' cs ds h)

parse_usize-Digits :
    (t : Text)
    → Digits t
    → 0 < length t
    → of_digits 0 t < 2 ^ 64
    → parse_usize t ≡ some (of_digits 0 t)
unfolding parse_usize
parse_usize-Digits [] d l h = absurd (omega (arith, l))
parse_usize-Digits (c ∷ []) d l h = parse_digits-Digits 0 (c ∷ []) d h
parse_usize-Digits (c ∷ e ∷ es) ((low, high), ds) l h =
    let no_sign : (c == 43) ≡ false = ground (arith, low) in
    rw no_sign (parse_digits-Digits 0 (c ∷ e ∷ es) ((low, high), ds) h)

-- A number is read back from its decimal text.
parse_usize-nat_to_string : (n : ℕ) → n < 2 ^ 64 → parse_usize (nat_to_string n) ≡ some n
parse_usize-nat_to_string n h =
    let value = of_digits-nat_to_string n in
    parse_usize-Digits (nat_to_string n) (nat_to_string-Digits n) (length-nat_to_string n)
      (omega (arith, value, h))
    ∙ ap (λ m. some m) value

-- What a user writes for a range: a number, or two numbers with a dash.
pub data Written : Type 0 where
  one : ℕ → Written
  interval : ℕ → ℕ → Written

abbrev pub written_text : Written → Text
written_text (one n) = nat_to_string n
written_text (interval a b) = nat_to_string a ++ (45 ∷ nat_to_string b)

abbrev pub written_range : Written → ℕ × ℕ
written_range (one n) = (n, n)
written_range (interval a b) = (a, b)

-- The numbers have 64 bits.
abbrev pub Fits : Written → Type 0
Fits (one n) = n < 2 ^ 64
Fits (interval a b) = (a < 2 ^ 64) × (b < 2 ^ 64)

contains_char-Free : (c : ℕ) (t : Text) → Free c t → contains_char c t ≡ false
contains_char-Free c [] h = refl
contains_char-Free c (d ∷ ds) (h, hs) = rw (h, contains_char-Free c ds hs) refl

contains_char-append : (c : ℕ) (s t : Text) → contains_char c (s ++ (c ∷ t)) ≡ true
contains_char-append c [] t = rw ((==_iff c c).1 refl) refl
contains_char-append c (d ∷ ds) t = elim (Bool-cases (d == c)) [
  | inl e ↦ rw e refl
  | inr e ↦ rw e (contains_char-append c ds t)
]

Free-nat_to_string : (separator n : ℕ) → separator < 48 → Free separator (nat_to_string n)
Free-nat_to_string separator n h =
    Free-Digits separator (nat_to_string n) h (nat_to_string-Digits n)

range_from_str-written_text :
    (w : Written) → Fits w → range_from_str (written_text w) ≡ some (written_range w)
unfolding range_from_str range_of_numbers
range_from_str-written_text (one n) h =
    rw
      (
        contains_char-Free 45 (nat_to_string n) (Free-nat_to_string 45 n (omega arith)),
        parse_usize-nat_to_string n h,
      )
      refl
range_from_str-written_text (interval a b) (ha, hb) =
    rw
      (
        contains_char-append 45 (nat_to_string a) (nat_to_string b),
        split-append 45 (nat_to_string a) (nat_to_string b) (Free-nat_to_string 45 a (omega arith)),
        split-Free 45 (nat_to_string b) (Free-nat_to_string 45 b (omega arith)),
        parse_usize-nat_to_string a ha,
        parse_usize-nat_to_string b hb,
      )
      refl

Free-written_text : (w : Written) → Free 44 (written_text w)
Free-written_text (one n) = Free-nat_to_string 44 n (omega arith)
Free-written_text (interval a b) =
    Free-append 44 (nat_to_string a) (45 ∷ nat_to_string b) (Free-nat_to_string 44 a (omega arith))
      (refl, Free-nat_to_string 44 b (omega arith))

-- Ranges, at least one, that are written as numbers below 2^64 or as two of them with a dash, and
-- are joined by commas, are read back, each number as the range of itself alone.
pub ranges_from_str-join :
    (w : Written) (ws : List Written)
    → Fits w
    → All Fits ws
    → ranges_from_str (join (map written_text (w ∷ ws))) ≡ some (map written_range (w ∷ ws))
unfolding ranges_from_str ranges_of join
ranges_from_str-join w [] h hs =
    rw (split-Free 44 (written_text w) (Free-written_text w), range_from_str-written_text w h) refl
ranges_from_str-join w (v ∷ vs) h (h', hs) =
    rw
      (
        split-append 44 (written_text w) (join (map written_text (v ∷ vs))) (Free-written_text w),
        range_from_str-written_text w h,
        ranges_from_str-join v vs h' hs,
      )
      refl
