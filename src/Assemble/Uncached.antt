-- ===== src/Assemble/Uncached.antt =====
-- `expand_string_ref` with the string cache and without.
use evtx.Prelude.{
  Option-cases, length, ℕ, suc, ◌+◌, ◌-◌, ◌%◌, ◌^◌, ◌<◌, ◌≡◌, refl, sym, ◌∙◌, subst, inl, inr, none,
  some, List, [], arith,
}
use evtx.Cache.Names.{NamesAt, get-NameAt, populate-NamesAt}
use evtx.Err.{
  Outcome, ok, failed_to_parse_chunk_header, failed_to_build_string_cache, EvtxError,
  deserialization_error, bind, map_err,
}
use evtx.Records.{EvtxChunk, new_chunk}
use evtx.Foreign.{Foreign}
use evtx.Assemble.{expand_string_ref}
use evtx.Chunk.{EvtxChunkData}
use evtx.Settings.{ParserSettings}
use evtx.Cache.{get, populate_strings, populate_templates}
use evtx.Name.{BinXmlName, name_link_size, read_name}
use evtx.Err.Bind.{bind-ok, ok-injective, map_err-ok}

get-empty : (offset : ℕ) → get {V = BinXmlName} [] offset ≡ none
unfolding get
get-empty offset = refl

module _ {X : Foreign} where
  new_chunk-NamesAt :
      (c : EvtxChunkData) (settings : ParserSettings X) {chunk : EvtxChunk X}
      → length c.bytes < 2 ^ 32 - name_link_size
      → new_chunk c settings ≡ ok chunk
      → NamesAt X chunk.bytes chunk.string_cache × (chunk.bytes ≡ c.bytes)
  unfolding new_chunk
  new_chunk-NamesAt c settings {chunk = chunk} small e =
      let fuel = suc (length c.bytes) in
      let ((strings, at), e1, h1) =
        bind-ok
          (map_err (λ x. failed_to_build_string_cache x)
            (populate_strings {X = X} fuel c.header.strings_offsets [] c.bytes 0))
          _ e in
      let ((templates, at'), e2, h2) =
        bind-ok
          (map_err (λ x. failed_to_parse_chunk_header x)
            (populate_templates settings.ansi_codec fuel c.header.template_offsets [] c.bytes 0))
          _ h1 in
      let names =
        populate-NamesAt X c.bytes fuel c.header.strings_offsets [] 0 (omega arith) tt
          (map_err-ok _ _ e1) in
      subst (λ k. NamesAt X k.bytes k.string_cache × (k.bytes ≡ c.bytes)) (ok-injective h2)
        (names, refl)

  -- Reading the name that a reference names.
  abbrev read_at : List ℕ → ℕ → Outcome (EvtxError X) BinXmlName
  read_at bytes at =
      bind (map_err deserialization_error (read_name {X = X} bytes at)) λ (s, end'). ok s

  expand-cached :
      (chunk : EvtxChunk X) (offset : ℕ) {name : BinXmlName}
      → get chunk.string_cache offset ≡ some name
      → expand_string_ref chunk (record { offset = offset }) ≡ ok name
  unfolding expand_string_ref
  expand-cached chunk offset h = rw (h, expand_string_ref) refl

  expand-read :
      (chunk : EvtxChunk X) (offset : ℕ)
      → get chunk.string_cache offset ≡ none
      → expand_string_ref chunk (record { offset = offset })
        ≡ read_at chunk.bytes ((offset + name_link_size) % 2 ^ 32)
  unfolding expand_string_ref
  expand-read chunk offset h = rw (h, expand_string_ref) refl

  -- In a chunk of less than 2^32 - 6 bytes whose caches could be filled, a reference below 2^32 -
  -- 6 is expanded to the same name, or the same error, as with an empty string cache: what is
  -- cached is what reading the chunk behind the reference's link gives.
  pub expand_string_ref-uncached :
      (c : EvtxChunkData) (settings : ParserSettings X) {chunk : EvtxChunk X} (offset : ℕ)
      → length c.bytes < 2 ^ 32 - name_link_size
      → new_chunk c settings ≡ ok chunk
      → offset < 2 ^ 32 - name_link_size
      → expand_string_ref chunk (record { offset = offset })
        ≡ expand_string_ref (record chunk { string_cache = [] }) (record { offset = offset })
  expand_string_ref-uncached c settings {chunk = chunk} offset small e near =
      let (names, same) = new_chunk-NamesAt c settings small e in
      let inside : (offset + name_link_size) % 2 ^ 32 ≡ offset + name_link_size = omega arith in
      let uncached = expand-read (record chunk { string_cache = [] }) offset (get-empty offset) in
      elim (Option-cases (get chunk.string_cache offset)) [
        | inl none' ↦ expand-read chunk offset none' ∙ sym uncached
        | inr (name, found) ↦
            let (end', read) = get-NameAt X chunk.bytes chunk.string_cache offset names found in
            let same_name : read_at chunk.bytes ((offset + name_link_size) % 2 ^ 32) ≡ ok name =
              rw (inside, read) refl in
            expand-cached chunk offset found ∙ sym same_name ∙ sym uncached
      ]
