-- ===== src/Assemble/Expanded.antt =====
-- What `expand_templates` leaves, and which values a template's substitutions get.
use evtx.Prelude.{
  if◌then◌else◌, All, ℕ, zero, suc, ◌≡◌, subst, Bool, true, false, List, [], ◌∷◌, ◌++◌,
}
use evtx.Assemble.{
  take_substitution, template_tokens, expand_list, expand_with, expand_token, expand_templates,
}
use evtx.Foreign.{Foreign}
use evtx.Err.{Outcome, ok, err, panic, out_of_fuel, EvtxError, bind}
use evtx.Model.{Token, Tokens, nil, cons, BinXmlValue}
use evtx.Records.{EvtxChunk}

-- A token that `create_record_model` need not have expanded.
abbrev pub IsExpanded : {X : Foreign} → Token X → Type 0
IsExpanded (Token.value (BinXmlValue.bin_xml_type _)) = ⊥
IsExpanded (Token.template_instance _ _) = ⊥
IsExpanded t = Unit

module _ {X : Foreign} where
  abbrev pub Expands : Outcome (EvtxError X) (List (Token X)) → Type 0
  Expands (ok ts) = All IsExpanded ts
  Expands r = Unit

  All-append :
      (xs ys : List (Token X)) → All IsExpanded xs → All IsExpanded ys → All IsExpanded (xs ++ ys)
  All-append [] ys h k = k
  All-append (x ∷ xs) ys (hx, h) k = (hx, All-append xs ys h k)

  append-Expands :
      (r s : Outcome (EvtxError X) (List (Token X)))
      → Expands r
      → Expands s
      → Expands (bind r λ a. bind s λ b. ok (a ++ b))
  append-Expands (ok a) (ok b) h k = All-append a b h k
  append-Expands (ok a) (err e) h k = tt
  append-Expands (ok a) panic h k = tt
  append-Expands (ok a) out_of_fuel h k = tt
  append-Expands (err e) s h k = tt
  append-Expands panic s h k = tt
  append-Expands out_of_fuel s h k = tt

  module _ (expand : Token X → Outcome (EvtxError X) (List (Token X)))
      (expands : (t : Token X) → Expands (expand t)) where
    list-Expands : (ts : Tokens X) → Expands (expand_list expand ts)
    unfolding expand_list
    list-Expands nil = tt
    list-Expands (cons t ts) = append-Expands (expand t) _ (expands t) (list-Expands ts)

    if-Expands :
        (b : Bool) (r s : Outcome (EvtxError X) (List (Token X)))
        → Expands r
        → Expands s
        → Expands (if b then r else s)
    if-Expands true r s h k = h
    if-Expands false r s h k = k

    with-Expands : (ts array : Tokens X) → Expands (expand_with expand ts array)
    unfolding expand_with
    with-Expands nil array = tt
    with-Expands (cons (Token.substitution d) ts) array =
        if-Expands d.ignore _ _ (with-Expands ts array) (
          append-Expands (expand (take_substitution array d.substitution_index).0) _ (expands _)
            (with-Expands ts (take_substitution array d.substitution_index).1))
    with-Expands (cons t ts) array = append-Expands (expand t) _ (expands t) (with-Expands ts array)

  bind-Expands :
      {A : Type 0} (r : Outcome (EvtxError X) A) (g : A → Outcome (EvtxError X) (List (Token X)))
      → ((a : A) → Expands (g a))
      → Expands (bind r g)
  bind-Expands (ok a) g h = h a
  bind-Expands (err e) g h = tt
  bind-Expands panic g h = tt
  bind-Expands out_of_fuel g h = tt

  token-Expands : (chunk : EvtxChunk X) (f : ℕ) (t : Token X) → Expands (expand_token chunk f t)
  unfolding expand_token
  token-Expands chunk zero t = tt
  token-Expands chunk (suc f) (Token.value (BinXmlValue.bin_xml_type tokens)) =
      list-Expands (expand_token chunk f) (token-Expands chunk f) tokens
  token-Expands chunk (suc f) (Token.template_instance offset array) =
      bind-Expands (template_tokens chunk offset) _
        λ tokens. with-Expands (expand_token chunk f) (token-Expands chunk f) tokens array
  token-Expands chunk (suc f) t = (tt, tt)

  -- What `expand_templates` gives has no template instance and no nested binary XML left, at
  -- whatever depth they stood.
  pub expand_templates-IsExpanded :
      (chunk : EvtxChunk X) (fuel : ℕ) (token_tree : Tokens X) {tokens : List (Token X)}
      → expand_templates chunk fuel token_tree ≡ ok tokens
      → All IsExpanded tokens
  unfolding expand_templates
  expand_templates-IsExpanded chunk fuel token_tree e =
      subst Expands e (list-Expands (expand_token chunk fuel) (token-Expands chunk fuel) token_tree)
