-- ===== src/Cache.antt =====
-- src/string_cache.rs and src/template_cache.rs: the names and the template definitions of a chunk
-- by their offsets. Both follow linked lists in the chunk, so a list that closes a cycle makes the
-- program loop for ever: the fuel counts the links followed from one bucket.
pub mod Names
pub mod Cycle
use evtx.Prelude.{
  ltb, ◌==◌, if◌then◌else◌, ℕ, zero, suc, ◌%◌, ◌^◌, Option, none, some, List, [], ◌∷◌,
}
use evtx.Foreign.{Foreign}
use evtx.Cursor.{Read, pure, starve, ◌>>=◌, ◌>>◌, position, seek}
use evtx.Name.{BinXmlName, read_name_link, read_name}
use evtx.Model.{BinXmlTemplateDefinition}
use evtx.Tokens.{read_template_definition}
use evtx.Deserializer.{read_fragment}

-- A `HashMap`: the entry inserted last counts.
abbrev pub HashMap : Type 0 → Type 0
HashMap V = List (ℕ × V)

module _ {V : Type 0} where
  unfoldable pub get : HashMap V → ℕ → Option V
  get [] offset = none
  get ((o, v) ∷ cache) offset = if o == offset then some v else get cache offset

  unfoldable pub insert : HashMap V → ℕ → V → HashMap V
  insert cache offset v = (offset, v) ∷ cache

abbrev pub StringCache : Type 0
StringCache = HashMap BinXmlName

abbrev pub TemplateCache : Foreign → Type 0
TemplateCache X = HashMap (BinXmlTemplateDefinition X)

module _ {X : Foreign} where
  -- The inner loop of `StringCache::populate`. Positions are cut to 32 bits.
  unfoldable pub follow_strings : ℕ → StringCache → Read X StringCache
  unfolding read_name_link read_name insert
  follow_strings zero cache = starve
  follow_strings (suc f) cache = do
    string_position ← position
    link ← read_name_link
    name ← read_name
    elim link.next_string [
      | some offset ↦ do
        seek offset
        follow_strings f (insert cache (string_position % 2 ^ 32) name)
      | none ↦ pure (insert cache (string_position % 2 ^ 32) name)
    ]

  unfoldable pub populate_strings : ℕ → List ℕ → StringCache → Read X StringCache
  unfolding follow_strings
  populate_strings fuel [] cache = pure cache
  populate_strings fuel (offset ∷ offsets) cache = do
    cache' ← (if ltb 0 offset then (do seek offset; follow_strings fuel cache) else pure cache)
    populate_strings fuel offsets cache'

  unfoldable pub follow_templates : X.Codec → ℕ → TemplateCache X → Read X (TemplateCache X)
  unfolding read_template_definition read_fragment insert
  follow_templates ansi_codec zero cache = starve
  follow_templates ansi_codec (suc f) cache = do
    table_offset ← position
    definition ← read_template_definition ansi_codec (read_fragment ansi_codec none)
    if definition.header.next_template_offset == 0
        then pure (insert cache (table_offset % 2 ^ 32) definition)
        else (do
          seek definition.header.next_template_offset
          follow_templates ansi_codec f (insert cache (table_offset % 2 ^ 32) definition))

  unfoldable pub populate_templates :
      X.Codec → ℕ → List ℕ → TemplateCache X → Read X (TemplateCache X)
  unfolding follow_templates
  populate_templates ansi_codec fuel [] cache = pure cache
  populate_templates ansi_codec fuel (offset ∷ offsets) cache = do
    cache' ←
        (if ltb 0 offset
          then (do seek offset; follow_templates ansi_codec fuel cache)
          else pure cache)
    populate_templates ansi_codec fuel offsets cache'
