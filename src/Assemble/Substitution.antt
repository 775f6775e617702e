-- ===== src/Assemble/Substitution.antt =====
-- The values that the substitutions of a template get: src/binxml/assemble.rs takes each out of the
-- array that comes with the template's instance.
use evtx.Prelude.{
  ◌==◌, if◌then◌else◌, ℕ, zero, suc, ◌≡◌, refl, ap, ◌∙◌, Bool, true, false, ◌||◌, List, [], ◌∷◌,
  ◌++◌, arith,
}
use evtx.Model.{Token, Tokens, nil, cons, BinXmlValue}
use evtx.Assemble.{take_substitution, expand_list, expand_with}
use evtx.Foreign.{Foreign}
use evtx.Err.{Outcome, ok, EvtxError, bind}

-- A number is in a list.
abbrev pub listed : ℕ → List ℕ → Bool
listed i [] = false
listed i (j ∷ js) = (j == i) || listed i js

or_if :
    {A : Type 0} (b c : Bool) (x y : A)
    → (if b then x else if c then x else y) ≡ (if b || c then x else y)
or_if true c x y = refl
or_if false c x y = refl

module _ {X : Foreign} where
  abbrev pub null : Token X
  null = Token.value BinXmlValue.null_type

  -- The value with an index, as the array was built, and a null value beyond its end.
  abbrev pub value_at : Tokens X → ℕ → Token X
  value_at nil i = null
  value_at (cons t ts) zero = t
  value_at (cons t ts) (suc i) = value_at ts i

  take_value : (ts : Tokens X) (i : ℕ) → (take_substitution ts i).0 ≡ value_at ts i
  unfolding take_substitution
  take_value nil i = refl
  take_value (cons t ts) zero = refl
  take_value (cons t ts) (suc i) = take_value ts i

  rest_value :
      (ts : Tokens X) (i j : ℕ)
      → value_at (take_substitution ts i).1 j ≡ (if i == j then null else value_at ts j)
  unfolding take_substitution
  rest_value nil i j = ground arith
  rest_value (cons t ts) zero zero = refl
  rest_value (cons t ts) zero (suc j) = ground arith
  rest_value (cons t ts) (suc i) zero = ground arith
  rest_value (cons t ts) (suc i) (suc j) = rest_value ts i j ∙ ground arith

  -- A template with its substitutions replaced by the array's values. `used` has the indices that
  -- were there before: each value is there for the first of its index only. An ignored
  -- substitution vanishes and uses nothing.
  abbrev pub filled : Tokens X → Tokens X → List ℕ → Tokens X
  filled nil array used = nil
  filled (cons (Token.substitution d) ts) array used =
      let i = d.substitution_index in
      let ignored = filled ts array used in
      let value = if listed i used then null else value_at array i in
      let replaced = cons value (filled ts array (i ∷ used)) in
      if d.ignore then ignored else replaced
  filled (cons t ts) array used = cons t (filled ts array used)

  -- What is left of an array after the values with some indices were taken out.
  abbrev Left : Tokens X → List ℕ → Tokens X → Type 0
  Left array used array' =
      (j : ℕ) → value_at array' j ≡ (if listed j used then null else value_at array j)

  Left-take :
      (array : Tokens X) (used : List ℕ) (array' : Tokens X) (i : ℕ)
      → Left array used array'
      → Left array (i ∷ used) (take_substitution array' i).1
  Left-take array used array' i h j =
      rest_value array' i j
      ∙ ap (λ v. if i == j then null else v) (h j)
      ∙ or_if (i == j) (listed j used) null (value_at array j)

  module _ (expand : Token X → Outcome (EvtxError X) (List (Token X))) where
    abbrev both :
        Outcome (EvtxError X) (List (Token X))
        → Outcome (EvtxError X) (List (Token X))
        → Outcome (EvtxError X) (List (Token X))
    both r s = bind r λ a. bind s λ b. ok (a ++ b)

    list-cons :
        (t : Token X) (ts : Tokens X)
        → both (expand t) (expand_list expand ts) ≡ expand_list expand (cons t ts)
    unfolding expand_list
    list-cons t ts = refl

    list-if :
        (b : Bool) (ts us : Tokens X)
        → (if b then expand_list expand ts else expand_list expand us)
          ≡ expand_list expand (if b then ts else us)
    list-if true ts us = refl
    list-if false ts us = refl

    with-filled :
        (ts array : Tokens X) (used : List ℕ) (array' : Tokens X)
        → Left array used array'
        → expand_with expand ts array' ≡ expand_list expand (filled ts array used)
    unfolding expand_with expand_list
    with-filled nil array used array' h = refl
    with-filled (cons (Token.substitution d) ts) array used array' h =
        let i = d.substitution_index in
        let next = (take_substitution array' i).1 in
        let first = take_value array' i ∙ h i in
        ap
          (λ r.
            if d.ignore
            then r
            else both (expand (take_substitution array' i).0) (expand_with expand ts next))
          (with-filled ts array used array' h)
        ∙ ap
            (λ r.
              if d.ignore
              then expand_list expand (filled ts array used)
              else both (expand r) (expand_with expand ts next))
            first
        ∙ ap
            (λ r.
              if d.ignore
              then expand_list expand (filled ts array used)
              else both (expand (if listed i used then null else value_at array i)) r)
            (with-filled ts array (i ∷ used) next (Left-take array used array' i h))
        ∙ list-if d.ignore (filled ts array used)
            (cons (if listed i used then null else value_at array i) (filled ts array (i ∷ used)))
    with-filled (cons t ts) array used array' h =
        ap (λ r. both (expand t) r) (with-filled ts array used array' h)
        ∙ list-cons t (filled ts array used)

    -- A template expands like its tokens with the substitutions replaced: by the value with the
    -- substitution's index at the first substitution of that index, by a null value at a later one
    -- and beyond the array's end; an ignored substitution vanishes and uses no value.
    pub expand_with-filled :
        (ts array : Tokens X)
        → expand_with expand ts array ≡ expand_list expand (filled ts array [])
    expand_with-filled ts array = with-filled ts array [] array (λ j. refl)
