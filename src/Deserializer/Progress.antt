-- ===== src/Deserializer/Progress.antt =====
-- Deserialization without a chunk (as for the template cache) always returns, and the cursor never
-- goes back.
use evtx.Prelude.{
  leb, leb→le, Bool-cases, length, ℕ, zero, suc, ◌+◌, ◌-◌, ◌≤◌, ◌<◌, ◌≡◌, refl, ◌≢◌, inl, inr, Bool,
  true, false, ◌||◌, Option, none, List, arith,
}
use evtx.Foreign.{Foreign}
use evtx.Err.{Outcome, ok, err, panic, out_of_fuel, DeserializationError, bind}
use evtx.Cursor.{Read, ◌>>=◌, buffer_len, read_uint}
use evtx.Cursor.Progress.{
  Safe, reached, failed, Stays, Advances, Safe-ne-out_of_fuel, Safe-ok-le, Safe-bind, Safe-bind_eq,
  Stays-pure, Stays-raise, Stays-ok_or, Stays-Advances, Stays-bind, Stays-position, Advances-bind,
}
use evtx.Macros.Progress.{ForeignAdvances, Advances-u8}
use evtx.Name.Progress.{Advances-name_ref}
use evtx.Model.{Token, Tokens, cons}
use evtx.Value.Progress.{Stays-wrap, Stays-token, Stays-check_value_type, Stays-value}
use evtx.Tokens.Progress.{
  Stays-fragment_header, Stays-pi_data, Stays-substitution_descriptor, Stays-open_start_element,
  Stays-template,
}
use evtx.Deserializer.{
  IterTokens, iter_tokens, is_spent, read_next_token, unimplemented_at, visit_token,
  read_raw_and_visit, advance, inner_next, collect, read_binxml_fragment, read_fragment,
}
use evtx.Value.{from_binxml_stream}
use evtx.Raw.{BinXmlRawToken}

-- The iterator stopped, or failed, at `low` or beyond.
data Ends {X : Foreign} (low : ℕ)
    : Outcome (DeserializationError X) (Tokens X × IterTokens) → Type 0 where
  ended : {ts : Tokens X} {it : IterTokens} → low ≤ it.offset → Ends low (ok (ts, it))
  broken : {e : DeserializationError X} → Ends low (err e)
  crashed : Ends low panic

module _ {E A B : Type 0} where
  read_part :
      (r : Outcome E (A × ℕ)) (g : A × ℕ → Outcome E B) {b : B}
      → bind r g ≡ ok b
      → (a : A) × (p : ℕ) × (r ≡ ok (a, p))
  read_part (ok (a, p)) g h = (a, p, refl)
  read_part (err e) g h = cc
  read_part panic g h = cc
  read_part out_of_fuel g h = cc

module _ {X : Foreign} {start : ℕ} where
  Ends-bind :
      {A B : Type 0} {low : ℕ} (r : Outcome (DeserializationError X) (A × ℕ))
      (g : A × ℕ → Outcome (DeserializationError X) B)
      (k : B → Outcome (DeserializationError X) (Tokens X × IterTokens))
      → Safe low r
      → ((a : A) (p : ℕ) → r ≡ ok (a, p) → low ≤ p → Ends start (bind (g (a, p)) k))
      → Ends start (bind (bind r g) k)
  Ends-bind (ok (a, p)) g k h l = l a p refl (Safe-ok-le h refl)
  Ends-bind (err e) g k h l = broken
  Ends-bind panic g k h l = Ends.crashed
  Ends-bind out_of_fuel g k h l = absurd (Safe-ne-out_of_fuel h refl)

  Ends-cons :
      (token : Token X) {r : Outcome (DeserializationError X) (Tokens X × IterTokens)}
      → Ends start r
      → Ends start (bind r λ (rest, last). ok (cons token rest, last))
  Ends-cons token (ended h) = ended h
  Ends-cons token broken = broken
  Ends-cons token Ends.crashed = Ends.crashed

  Ends-finish :
      {low : ℕ} {r : Outcome (DeserializationError X) (Tokens X × IterTokens)}
      → low ≤ start
      → Ends start r
      → Safe low (bind r λ (tokens, it). ok (tokens, it.offset))
  Ends-finish l (ended h) = reached (omega arith)
  Ends-finish l broken = failed
  Ends-finish l Ends.crashed = Safe.crashed

module _ {X : Foreign} (forward : ForeignAdvances X) (ansi_codec : X.Codec) where
  module _ {f low : ℕ} (fragment : Option ℕ → Bool → Read X (Tokens X)) (inside : Bool)
      (nested : (size : Option ℕ) (b : Bool) → Stays f low (fragment size b)) where
    Stays-visit_token :
        (raw : BinXmlRawToken) → Stays f low (visit_token ansi_codec none fragment inside raw)
    unfolding visit_token from_binxml_stream unimplemented_at
    Stays-visit_token BinXmlRawToken.end_of_stream = Stays-pure _
    Stays-visit_token (BinXmlRawToken.open_start_element b) =
        Stays-wrap _ _ (Stays-open_start_element b inside)
    Stays-visit_token BinXmlRawToken.close_start_element = Stays-pure _
    Stays-visit_token BinXmlRawToken.close_empty_element = Stays-pure _
    Stays-visit_token BinXmlRawToken.close_element = Stays-pure _
    Stays-visit_token BinXmlRawToken.value = Stays-wrap _ _ (
        Stays-bind _ _ (Stays-Advances _ (Advances-u8 _)) λ byte.
          Stays-bind _ _ (Stays-check_value_type byte)
            λ t. Stays-value forward ansi_codec fragment nested t none)
    Stays-visit_token (BinXmlRawToken.attribute b) = Stays-token _ _ Advances-name_ref
    Stays-visit_token BinXmlRawToken.cdata_section = Stays-position _ λ p h. Stays-raise _
    Stays-visit_token BinXmlRawToken.char_reference = Stays-position _ λ p h. Stays-raise _
    Stays-visit_token BinXmlRawToken.entity_reference = Stays-token _ _ Advances-name_ref
    Stays-visit_token BinXmlRawToken.processing_instruction_target =
        Stays-token _ _ Advances-name_ref
    Stays-visit_token BinXmlRawToken.processing_instruction_data = Stays-wrap _ _ Stays-pi_data
    Stays-visit_token BinXmlRawToken.template_instance =
        Stays-template forward ansi_codec fragment nested
    Stays-visit_token BinXmlRawToken.normal_substitution =
        Stays-wrap _ _ (Stays-substitution_descriptor false)
    Stays-visit_token BinXmlRawToken.conditional_substitution =
        Stays-wrap _ _ (Stays-substitution_descriptor true)
    Stays-visit_token BinXmlRawToken.start_of_stream = Stays-wrap _ _ Stays-fragment_header

  Advances-next_token : Advances (read_next_token {X = X})
  unfolding read_next_token
  Advances-next_token =
      Advances-bind _ _ (Advances-u8 _) λ byte f low. Stays-position _ λ p h. Stays-ok_or _ _

  -- A token that was read lay inside the buffer.
  next_token-inside :
      (buf : List ℕ) (p : ℕ) {raw : BinXmlRawToken} {p' : ℕ}
      → read_next_token {X = X} buf p ≡ ok (raw, p')
      → p < length buf
  unfolding read_next_token ◌>>=◌ read_uint
  next_token-inside buf p h = elim (Bool-cases (leb 1 (length buf - p))) [
    | inl c ↦ omega (arith, leb→le 1 (length buf - p) c)
    | inr c ↦ absurd (cc (rw c at h))
  ]

  module _ {f : ℕ} (fragment : Option ℕ → Bool → Read X (Tokens X)) (inside : Bool) (buf : List ℕ)
      (start : ℕ)
      (nested : (low : ℕ)
        → start < low
        → low ≤ length buf
        → (size : Option ℕ) (b : Bool) → Stays f low (fragment size b))
      (enough : length buf < f + suc start) where
    Safe-raw_and_visit :
        (p : ℕ)
        → start ≤ p
        → Safe (suc p) (read_raw_and_visit ansi_codec none fragment inside buf p)
    unfolding read_raw_and_visit ◌>>=◌
    Safe-raw_and_visit p h =
        Safe-bind_eq (read_next_token buf p) _ (Advances-next_token.run buf p) λ raw p' eq k.
          let inside_buf = next_token-inside buf p eq in
          Safe-bind _
            ((Stays-visit_token {low = suc p} fragment inside
                (nested (suc p) (omega arith) (omega arith)) raw).run
              buf p' (omega arith) k)
            λ token p'' k'. reached k'

    raw_and_visit-inside :
        (p : ℕ) {v : BinXmlRawToken × Token X} {p' : ℕ}
        → read_raw_and_visit ansi_codec none fragment inside buf p ≡ ok (v, p')
        → p < length buf
    unfolding read_raw_and_visit ◌>>=◌
    raw_and_visit-inside p h =
        let (raw, q, e) = read_part (read_next_token buf p) _ h in next_token-inside buf p e

    -- With a round for each byte left, and one more, the iterator stops.
    Ends-collect :
        (n : ℕ) (it : IterTokens)
        → start ≤ it.offset
        → length buf + 1 < n + it.offset
        → 1 ≤ n
        → Ends start (collect ansi_codec none fragment inside n buf it)
    unfolding collect
    Ends-collect zero it h k l = absurd (omega arith)
    Ends-collect (suc n) it h k l =
        elim (Bool-cases (it.eof || is_spent it.data_size it.data_read_so_far)) [
          | inl c ↦ rw (c, collect, inner_next) (ended h)
          | inr c ↦
              rw (c, collect, inner_next)
                (Ends-bind _ _ _ (Safe-raw_and_visit it.offset h) λ (raw, token) p eq m.
                  let inside_buf = raw_and_visit-inside it.offset eq in
                  Ends-cons token (
                    Ends-collect n (advance ansi_codec none fragment inside it raw p)
                      (unfold advance in omega arith) (unfold advance in omega arith)
                      (omega arith)))
        ]

  -- A nested fragment starts behind a byte of its parent, so it has one round less.
  Stays-fragment :
      (f low : ℕ) (data_size : Option ℕ) (inside : Bool)
      → Stays f low (read_binxml_fragment {X = X} ansi_codec none (suc f) data_size inside)
  unfolding read_binxml_fragment
  Stays-fragment zero low data_size inside = record {
    run = λ buf p h k. Ends-finish k (
        Ends-collect {f = zero} (read_binxml_fragment ansi_codec none zero) inside buf p
          (λ low' l m. absurd (omega arith)) (omega arith) 2 (iter_tokens p data_size) (omega arith)
          (omega arith) (omega arith));
  }
  Stays-fragment (suc f) low data_size inside = record {
    run = λ buf p h k. Ends-finish k (
        Ends-collect {f = f} (read_binxml_fragment ansi_codec none (suc f)) inside buf p
          (λ low' l m. Stays-fragment f low') (omega arith) (suc (suc (suc f)))
          (iter_tokens p data_size) (omega arith) (omega arith) (omega arith));
  }

  -- Without a chunk, and with readers of GUIDs, SIDs and file times that take a byte at least,
  -- reading a fragment returns from every position of every buffer (the fuel of `read_fragment`
  -- is enough), and a success leaves the cursor where it was or further on.
  pub read_fragment_returns :
      (data_size : Option ℕ) (inside : Bool) (buf : List ℕ) (p : ℕ)
      → (read_fragment {X = X} ansi_codec none data_size inside buf p ≢ out_of_fuel)
        × ((tokens : Tokens X) (p' : ℕ)
            → read_fragment ansi_codec none data_size inside buf p ≡ ok (tokens, p')
            → p ≤ p')
  unfolding read_fragment ◌>>=◌ buffer_len
  read_fragment_returns data_size inside buf p =
      let safe =
        (Stays-fragment (suc (length buf)) p data_size inside).run buf p (omega arith)
          (omega arith) in
      (Safe-ne-out_of_fuel safe, λ tokens p' e. Safe-ok-le safe e)
