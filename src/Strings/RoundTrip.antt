-- ===== src/Strings/RoundTrip.antt =====
-- Texts written out as UTF-16 and read back.
use evtx.Prelude.{
  ltb, ◌==◌, if◌then◌else◌, ltb→lt, Bool-cases, length, All, Text, ℕ, suc, ◌+◌, ◌-◌, ◌*◌, ◌/◌, ◌%◌,
  ◌^◌, ◌≤◌, ◌<◌, ◌≡◌, refl, ap, ◌∙◌, subst, ◌⊎◌, inl, inr, true, false, Option, none, some, List,
  [], ◌∷◌, ◌++◌, append-nil, arith,
}
use evtx.Name.{read_name}
use evtx.Strings.{
  is_surrogate, is_high, is_low, cons_some, decode_utf16, take_until_nul, strip_nul,
  unwrap_or_default, read_units, read_utf16_string, read_utf16_by_size,
  read_len_prefixed_utf16_string,
}
use evtx.Cursor.Reads.{Reads, to_le, Reads-pure, Reads-bind, Reads-read_uint, Reads-map}
use evtx.Foreign.{Foreign}
use evtx.Err.{DeserializationError}
use evtx.Cursor.{Read, pure, ◌>>=◌, ok_or}

-- A Unicode scalar value other than NUL.
abbrev pub IsScalar : ℕ → Type 0
IsScalar c = (0 < c) × ((c < 0xd800) ⊎ ((0xe000 ≤ c) × (c < 0x110000)))

-- UTF-16: a scalar value beyond 16 bits is a pair of surrogates.
abbrev pub encode_utf16 : Text → List ℕ
encode_utf16 [] = []
encode_utf16 (c ∷ s) =
    let rest = encode_utf16 s in
    if ltb c 0x10000
    then c ∷ rest
    else (0xd800 + (c - 0x10000) / 0x400) ∷ (0xdc00 + (c - 0x10000) % 0x400) ∷ rest

decode-single :
    (u : ℕ) (us : List ℕ)
    → is_surrogate u ≡ false
    → decode_utf16 (u ∷ us) ≡ cons_some u (decode_utf16 us)
unfolding decode_utf16
decode-single u [] h = rw h refl
decode-single u (v ∷ us) h = rw h refl

decode-pair :
    (u v : ℕ) (us : List ℕ)
    → is_surrogate u ≡ true
    → is_high u ≡ true
    → is_low v ≡ true
    → decode_utf16 (u ∷ v ∷ us)
      ≡ cons_some (0x10000 + (u - 0xd800) * 0x400 + (v - 0xdc00)) (decode_utf16 us)
unfolding decode_utf16
decode-pair u v us h k l = rw (h, k, l) refl

plain_unit : (c : ℕ) → IsScalar c → c < 0x10000 → is_surrogate c ≡ false
plain_unit c (p, inl h) small = ground arith
plain_unit c (p, inr (h, k)) small = ground arith

wide_units :
    (c : ℕ)
    → 0x10000 ≤ c
    → c < 0x110000
    → let hi = 0xd800 + (c - 0x10000) / 0x400 in
      let lo = 0xdc00 + (c - 0x10000) % 0x400 in
      (is_surrogate hi ≡ true)
      × (is_high hi ≡ true)
      × (is_low lo ≡ true)
      × (0x10000 + (hi - 0xd800) * 0x400 + (lo - 0xdc00) ≡ c)
wide_units c h k = (ground arith, ground arith, ground arith, omega arith)

scalar_bound : (c : ℕ) → IsScalar c → c < 0x110000
scalar_bound c (p, inl h) = omega arith
scalar_bound c (p, inr (h, k)) = k

decode-encode : (s : Text) → All IsScalar s → decode_utf16 (encode_utf16 s) ≡ some s
unfolding decode_utf16
decode-encode [] h = refl
decode-encode (c ∷ s) (hc, h) = elim (Bool-cases (ltb c 0x10000)) [
  | inl small ↦ rw small (
      decode-single c _ (plain_unit c hc (ltb→lt _ _ small)) ∙ ap (cons_some c) (decode-encode s h))
  | inr large ↦
      let (a, b, d, e) = wide_units c (ground arith) (scalar_bound c hc) in
      rw large (
        decode-pair (0xd800 + (c - 0x10000) / 0x400) (0xdc00 + (c - 0x10000) % 0x400)
          (encode_utf16 s) a b d
        ∙ ap (cons_some _) (decode-encode s h)
        ∙ ap (λ x. some (x ∷ s)) e)
]

-- Units that are numbers of two bytes and not 0.
abbrev IsUnit : ℕ → Type 0
IsUnit u = (0 < u) × (u < 0x10000)

encode-IsUnit : (s : Text) → All IsScalar s → All IsUnit (encode_utf16 s)
encode-IsUnit [] h = tt
encode-IsUnit (c ∷ s) (hc, h) = elim (Bool-cases (ltb c 0x10000)) [
  | inl small ↦ rw small ((hc.0, ltb→lt _ _ small), encode-IsUnit s h)
  | inr large ↦
      let bound = scalar_bound c hc in
      rw large ((omega arith, omega arith), ((omega arith, omega arith), encode-IsUnit s h))
]

take_until_nul-units : (us : List ℕ) → All IsUnit us → take_until_nul us ≡ us
unfolding take_until_nul
take_until_nul-units [] h = refl
take_until_nul-units (u ∷ us) ((p, q), h) =
    let nonzero : (u == 0) ≡ false = ground arith in
    rw nonzero (ap (λ vs. u ∷ vs) (take_until_nul-units us h))

strip_nul-scalars : (s : Text) → All IsScalar s → strip_nul s ≡ s
unfolding strip_nul
strip_nul-scalars [] h = refl
strip_nul-scalars (c ∷ []) ((p, q), h) =
    let nonzero : (c == 0) ≡ false = ground arith in rw nonzero refl
strip_nul-scalars (c ∷ d ∷ s) (hc, h) = ap (λ t. c ∷ t) (strip_nul-scalars (d ∷ s) h)

abbrev pub units_le : List ℕ → List ℕ
units_le [] = []
units_le (u ∷ us) = to_le 2 u ++ units_le us

-- The bytes of a text with its length and a NUL.
abbrev pub text_bytes : Text → List ℕ
text_bytes s = to_le 2 (length (encode_utf16 s)) ++ (units_le (encode_utf16 s) ++ to_le 2 0)

-- No text is what a length of 0 gives.
abbrev text_option : Text → Option Text
text_option [] = none
text_option (c ∷ s) = some (c ∷ s)

length-encode : (c : ℕ) (s : Text) → 0 < length (encode_utf16 (c ∷ s))
length-encode c s = elim (Bool-cases (ltb c 0x10000)) [
  | inl small ↦ rw small (omega arith)
  | inr large ↦ rw large (omega arith)
]

module _ {X : Foreign} (e : DeserializationError X) where
  Reads-units : (us : List ℕ) → All IsUnit us → Reads (read_units e (length us)) (units_le us) us
  unfolding read_units
  Reads-units [] h = Reads-pure []
  Reads-units (u ∷ us) ((p, q), h) =
      Reads-bind _ _ (Reads-read_uint e 2 u q) (Reads-map _ (λ vs. u ∷ vs) (Reads-units us h))

  Reads-then :
      {A B : Type 0} (m : Read X A) (g : A → Read X B) {xs : List ℕ} {a : A} {b : B}
      → Reads m xs a
      → Reads (g a) [] b
      → Reads (m >>= g) xs b
  Reads-then m g {xs = xs} {b = b} h k =
      subst (λ ys. Reads (m >>= g) ys b) (append-nil xs) (Reads-bind m g h k)

  Reads-ok_or : (o : Option Text) (s : Text) → o ≡ some s → Reads (ok_or e o) [] s
  unfolding ok_or
  Reads-ok_or o s h = rw h (Reads-pure s)

  Reads-utf16 :
      (s : Text)
      → All IsScalar s
      → Reads (read_utf16_string e (some (length (encode_utf16 s)))) (units_le (encode_utf16 s)) s
  unfolding read_utf16_string
  Reads-utf16 s h =
      let units = encode-IsUnit s h in
      Reads-then _ _ (Reads-units (encode_utf16 s) units)
        (Reads-ok_or _ s (ap decode_utf16 (take_until_nul-units _ units) ∙ decode-encode s h))

  Reads-sized :
      (n : ℕ) (s : Text)
      → All IsScalar s
      → length (encode_utf16 s) ≡ suc n
      → Reads (read_utf16_by_size e (suc n * 2)) (units_le (encode_utf16 s)) (some s)
  unfolding read_utf16_by_size read_utf16_string
  Reads-sized n s h len =
      let some_size : (suc n * 2 == 0) ≡ false = ground arith in
      let half : suc n * 2 / 2 ≡ length (encode_utf16 s) = omega arith in
      rw (some_size, half)
        (subst
          (λ t.
            Reads
              (read_utf16_string e (some (length (encode_utf16 s))) >>= λ t.
                pure (some (strip_nul t)))
              (units_le (encode_utf16 s)) (some t))
          (strip_nul-scalars s h) (Reads-map _ (λ t. some (strip_nul t)) (Reads-utf16 s h)))

  Reads-nothing : Reads (read_utf16_by_size e 0) [] none
  unfolding read_utf16_by_size
  Reads-nothing = Reads-pure none

  Reads-by_size :
      (s : Text)
      → All IsScalar s
      → length (encode_utf16 s) < 0x8000
      → Reads
          (read_utf16_by_size e (length (encode_utf16 s) * 2 % 2 ^ 16))
          (units_le (encode_utf16 s))
          (text_option s)
  Reads-by_size [] h small = Reads-nothing
  Reads-by_size (c ∷ s) h small =
      let n = length (encode_utf16 (c ∷ s)) - 1 in
      let positive = length-encode c s in
      let size : suc n * 2 ≡ length (encode_utf16 (c ∷ s)) * 2 % 2 ^ 16 = omega arith in
      subst (λ k. Reads (read_utf16_by_size e k) (units_le (encode_utf16 (c ∷ s))) (some (c ∷ s)))
        size (Reads-sized n (c ∷ s) h (omega arith))

  Reads-len_prefixed :
      (s : Text)
      → All IsScalar s
      → length (encode_utf16 s) < 0x8000
      → Reads (read_len_prefixed_utf16_string e true) (text_bytes s) (text_option s)
  unfolding read_len_prefixed_utf16_string
  Reads-len_prefixed s h small =
      Reads-bind _ _ (Reads-read_uint e 2 (length (encode_utf16 s)) (omega arith)) (
        Reads-bind _ _ (Reads-by_size s h small)
          (Reads-map _ (λ z. text_option s) (Reads-read_uint e 2 0 (omega arith))))

text_option-default : (s : Text) → unwrap_or_default (text_option s) ≡ s
text_option-default [] = refl
text_option-default (c ∷ s) = refl

module _ {X : Foreign} where
  -- A name is read back from its bytes, wherever they stand: the number of its UTF-16 units, which
  -- is below 2^15, the units and a NUL. The name is any list of Unicode scalar values but NUL.
  pub read_name-bytes :
      (s : Text)
      → All IsScalar s
      → length (encode_utf16 s) < 0x8000
      → Reads (read_name {X = X}) (text_bytes s) s
  unfolding read_name
  read_name-bytes s h small =
      subst (λ t. Reads (read_name {X = X}) (text_bytes s) t) (text_option-default s)
        (Reads-map _ (λ o. unwrap_or_default o) (Reads-len_prefixed _ s h small))
