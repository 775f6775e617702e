-- ===== src/Assemble.antt =====
-- src/binxml/assemble.rs and src/model/xml.rs: template expansion, the record model, and the walk
-- over it that calls a visitor. A `Cow` is its value. Messages name the error.
pub mod Expanded
pub mod Uncached
pub mod Substitution
use evtx.Prelude.{
  if◌then◌else◌, length, ℕ, zero, suc, ◌+◌, ◌%◌, ◌^◌, none, some, List, [], ◌∷◌, ◌++◌,
}
use evtx.Foreign.{Foreign}
use evtx.Err.{Outcome, ok, out_of_fuel, EvtxError, deserialization_error, bind, map_err}
use evtx.Model.{BinXmlNameRef, Token, Tokens, nil, cons, BinXmlValue}
use evtx.Name.{BinXmlName, name_link_size, read_name}
use evtx.Cache.{get}
use evtx.Records.{EvtxChunk}
use evtx.Tokens.{read_template_definition}
use evtx.Deserializer.{read_fragment}

abbrev pub to_list : {X : Foreign} → Tokens X → List (Token X)
to_list nil = []
to_list (cons t ts) = t ∷ to_list ts

module _ {X : Foreign} where
  -- `substitution_array.get_mut(i)` and `mem::replace` with `NullType`: the value, and the array
  -- without it. Beyond the end the value is `NullType`.
  unfoldable pub take_substitution : Tokens X → ℕ → Token X × Tokens X
  take_substitution nil i = (Token.value BinXmlValue.null_type, nil)
  take_substitution (cons t ts) zero = (t, cons (Token.value BinXmlValue.null_type) ts)
  take_substitution (cons t ts) (suc i) =
      let (found, rest) = take_substitution ts i in (found, cons t rest)

  -- A template's definition: from the cache, or read from the chunk where it is not there.
  unfoldable pub template_tokens : EvtxChunk X → ℕ → Outcome (EvtxError X) (Tokens X)
  unfolding get read_template_definition read_fragment
  template_tokens chunk offset = elim (get chunk.template_table offset) [
    | some template_def ↦ ok template_def.tokens
    | none ↦
        bind
          (map_err deserialization_error (
            read_template_definition chunk.settings.ansi_codec
              (read_fragment chunk.settings.ansi_codec (some (length chunk.bytes))) chunk.bytes
              offset))
          λ (template_def, at). ok template_def.tokens
  ]

  -- Loops over tokens, with `expand` for one token. The results are lists to be appended.
  module _ (expand : Token X → Outcome (EvtxError X) (List (Token X))) where
    unfoldable pub expand_list : Tokens X → Outcome (EvtxError X) (List (Token X))
    expand_list nil = ok []
    expand_list (cons t ts) = bind (expand t) λ a. bind (expand_list ts) λ b. ok (a ++ b)

    -- `expand_template`'s loop, with `expand_token_substitution`.
    unfoldable pub expand_with : Tokens X → Tokens X → Outcome (EvtxError X) (List (Token X))
    unfolding take_substitution
    expand_with nil array = ok []
    expand_with (cons (Token.substitution d) ts) array =
        let (found, array') = take_substitution array d.substitution_index in
        let used = bind (expand found) λ a. bind (expand_with ts array') λ b. ok (a ++ b) in
        let ignored = expand_with ts array in if d.ignore then ignored else used
    expand_with (cons t ts) array =
        bind (expand t) λ a. bind (expand_with ts array) λ b. ok (a ++ b)

  -- `_expand_templates`. A template that instantiates itself recurs for ever: the fuel counts the
  -- nested calls.
  unfoldable pub expand_token : EvtxChunk X → ℕ → Token X → Outcome (EvtxError X) (List (Token X))
  unfolding expand_list expand_with template_tokens
  expand_token chunk zero t = out_of_fuel
  expand_token chunk (suc f) (Token.value (BinXmlValue.bin_xml_type tokens)) =
      expand_list (expand_token chunk f) tokens
  expand_token chunk (suc f) (Token.template_instance offset array) =
      bind (template_tokens chunk offset) λ tokens. expand_with (expand_token chunk f) tokens array
  expand_token chunk (suc f) t = ok (t ∷ [])

  unfoldable pub expand_templates :
      EvtxChunk X → ℕ → Tokens X → Outcome (EvtxError X) (List (Token X))
  unfolding expand_token
  expand_templates chunk fuel token_tree = expand_list (expand_token chunk fuel) token_tree

  -- `expand_string_ref`: a name that is not cached is read behind its link; the sum is a `u32`.
  unfoldable pub expand_string_ref : EvtxChunk X → BinXmlNameRef → Outcome (EvtxError X) BinXmlName
  expand_string_ref chunk string_ref = elim (get chunk.string_cache string_ref.offset) [
    | some s ↦ ok s
    | none ↦
        bind
          (map_err deserialization_error
            (read_name {X = X} chunk.bytes ((string_ref.offset + name_link_size) % 2 ^ 32)))
          λ (s, at). ok s
  ]
