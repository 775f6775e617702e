-- ===== src/Deserializer.antt =====
-- src/binxml/deserializer.rs: the token iterator, and the knot of the recursive readers. The fuel
-- counts nested fragments and the tokens of each.
pub mod Progress
use evtx.Prelude.{
  leb, if◌then◌else◌, ℕ, zero, suc, ◌+◌, ◌-◌, ◌%◌, ◌^◌, String, Bool, true, false, ◌||◌, Option,
  none, some, List,
}
use evtx.Foreign.{Foreign}
use evtx.Err.{
  Outcome, ok, out_of_fuel, DeserializationError, invalid_token, unimplemented_token, bind,
}
use evtx.Cursor.{Read, pure, raise, ◌>>=◌, ◌>>◌, position, buffer_len, ok_or}
use evtx.Macros.{unknown, try_read_u8}
use evtx.Raw.{BinXmlRawToken, raw_token_from_u8}
use evtx.Model.{Token, Tokens, nil, cons}
use evtx.Name.{read_name_ref}
use evtx.Value.{from_binxml_stream}
use evtx.Tokens.{
  read_fragment_header, read_processing_instruction_data, read_substitution_descriptor,
  read_open_start_element, read_template,
}

pub record IterTokens : Type 0 where
  pub offset : ℕ
  pub data_size : Option ℕ
  pub data_read_so_far : ℕ
  pub eof : Bool

-- `iter_tokens`
abbrev pub iter_tokens : ℕ → Option ℕ → IterTokens
iter_tokens start data_size = record {
  offset = start;
  data_size = data_size;
  data_read_so_far = 0;
  eof = false;
}

abbrev is_end : BinXmlRawToken → Bool
is_end BinXmlRawToken.end_of_stream = true
is_end _ = false

abbrev pub is_spent : Option ℕ → ℕ → Bool
is_spent none read = false
is_spent (some sz) read = leb sz read

module _ {X : Foreign} where
  unfoldable pub read_next_token : Read X BinXmlRawToken
  unfolding try_read_u8
  read_next_token = do
    byte ← try_read_u8 unknown
    at ← position
    ok_or (invalid_token byte at) (raw_token_from_u8 byte)

  unfoldable pub unimplemented_at : String → Read X (Token X)
  unimplemented_at name = do at ← position; raise (unimplemented_token name at)

module _ {X : Foreign} (ansi_codec : X.Codec) (chunk_len : Option ℕ) where
  module _ (fragment : Option ℕ → Bool → Read X (Tokens X)) (is_inside_substitution : Bool) where
    unfoldable pub visit_token : BinXmlRawToken → Read X (Token X)
    unfolding read_open_start_element from_binxml_stream read_name_ref read_template
        read_processing_instruction_data read_substitution_descriptor read_fragment_header
        unimplemented_at
    visit_token BinXmlRawToken.end_of_stream = pure Token.end_of_stream
    visit_token (BinXmlRawToken.open_start_element has_attributes) = do
      elem ← read_open_start_element chunk_len has_attributes is_inside_substitution
      pure (Token.open_start_element elem)
    visit_token BinXmlRawToken.close_start_element = pure Token.close_start_element
    visit_token BinXmlRawToken.close_empty_element = pure Token.close_empty_element
    visit_token BinXmlRawToken.close_element = pure Token.close_element
    visit_token BinXmlRawToken.value = do
      v ← from_binxml_stream ansi_codec fragment none
      pure (Token.value v)
    visit_token (BinXmlRawToken.attribute _) = do name ← read_name_ref; pure (Token.attribute name)
    visit_token BinXmlRawToken.cdata_section = unimplemented_at "CDataSection"
    visit_token BinXmlRawToken.char_reference = unimplemented_at "CharReference"
    visit_token BinXmlRawToken.entity_reference = do
      name ← read_name_ref
      pure (Token.entity_ref name)
    visit_token BinXmlRawToken.processing_instruction_target = do
      name ← read_name_ref
      pure (Token.pi_target name)
    visit_token BinXmlRawToken.processing_instruction_data = do
      text ← read_processing_instruction_data
      pure (Token.pi_data text)
    visit_token BinXmlRawToken.template_instance = read_template ansi_codec fragment
    visit_token BinXmlRawToken.normal_substitution = do
      descriptor ← read_substitution_descriptor false
      pure (Token.substitution descriptor)
    visit_token BinXmlRawToken.conditional_substitution = do
      descriptor ← read_substitution_descriptor true
      pure (Token.substitution descriptor)
    visit_token BinXmlRawToken.start_of_stream = do
      header ← read_fragment_header
      pure (Token.fragment_header header)

    unfoldable pub read_raw_and_visit : Read X (BinXmlRawToken × Token X)
    unfolding read_next_token visit_token
    read_raw_and_visit = do raw ← read_next_token; token ← visit_token raw; pure (raw, token)

    -- The iterator after a token: the difference of positions is taken on `u64`, and wraps.
    unfoldable pub advance : IterTokens → BinXmlRawToken → ℕ → IterTokens
    advance it raw after = record it {
      offset = after;
      data_read_so_far =
          (it.data_read_so_far + (after + 2 ^ 64 - it.offset) % 2 ^ 64 % 2 ^ 32) % 2 ^ 32;
      eof = is_end raw;
    }

    -- `inner_next`: `none` when the end of stream or of the data is reached.
    unfoldable pub inner_next :
        List ℕ → IterTokens → Option (Outcome (DeserializationError X) (Token X × IterTokens))
    unfolding read_raw_and_visit advance
    inner_next buf it =
        if it.eof || is_spent it.data_size it.data_read_so_far
        then none
        else some (
            bind (read_raw_and_visit buf it.offset)
              λ ((raw, token), after). ok (token, advance it raw after))

    -- The tokens up to the end or the first error.
    unfoldable pub collect :
        ℕ → List ℕ → IterTokens → Outcome (DeserializationError X) (Tokens X × IterTokens)
    unfolding inner_next
    collect zero buf it = out_of_fuel
    collect (suc n) buf it = elim (inner_next buf it) [
      | none ↦ ok (nil, it)
      | some r ↦
          bind r λ (token, it'). bind (collect n buf it') λ (rest, last). ok (cons token rest, last)
    ]

  -- The cursor is left where the iterator's stands: `seek_ahead` is their distance.
  unfoldable pub read_binxml_fragment : ℕ → Option ℕ → Bool → Read X (Tokens X)
  unfolding collect
  read_binxml_fragment zero data_size inside buf at = out_of_fuel
  read_binxml_fragment (suc f) data_size inside buf at =
      bind (collect (read_binxml_fragment f) inside (suc (suc f)) buf (iter_tokens at data_size))
        λ (tokens, it). ok (tokens, it.offset)

  -- With fuel for every byte of the buffer, and two more.
  unfoldable pub read_fragment : Option ℕ → Bool → Read X (Tokens X)
  unfolding read_binxml_fragment
  read_fragment data_size inside = do
    len ← buffer_len
    read_binxml_fragment (suc (suc len)) data_size inside
