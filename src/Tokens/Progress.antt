-- ===== src/Tokens/Progress.antt =====
-- The composite readers of src/binxml/tokens.rs return, provided the reader of nested fragments
-- does, and the element reader where no chunk is given (its heuristic then rests).
use evtx.Prelude.{
  ℕ, zero, suc, ◌+◌, ◌≤◌, String, ◌≡◌, Bool, false, Option, none, some, List, [], ◌∷◌, arith,
}
use evtx.Foreign.{Foreign}
use evtx.Cursor.{Read}
use evtx.Cursor.Progress.{
  Stays, Stays-pure, Stays-if, Stays-Advances, Stays-seek, Stays-bind, Stays-position,
}
use evtx.Macros.Progress.{ForeignAdvances, Advances-u8, Advances-u16, Advances-u32, Advances-guid}
use evtx.Strings.Progress.{Advances-len_prefixed}
use evtx.Name.Progress.{Advances-name_ref}
use evtx.Model.{TemplateValueDescriptor, Tokens, nil}
use evtx.Value.Progress.{Stays-wrap, Stays-token, Stays-check_value_type, Stays-value}
use evtx.Tokens.{
  is_null, read_template_definition_header, read_fragment_header, read_processing_instruction_data,
  read_substitution_descriptor, read_open_start_loop, read_open_start_element,
  read_value_descriptors, realign, read_substitution_values, read_template,
}
use evtx.Macros.{try_read_u8, try_read_u16, try_read_u32}

module _ {X : Foreign} {f low : ℕ} where
  Stays-u8 : (name : String) → Stays f low (try_read_u8 {X = X} name)
  Stays-u8 name = Stays-Advances _ (Advances-u8 name)

  Stays-u16 : (name : String) → Stays f low (try_read_u16 {X = X} name)
  Stays-u16 name = Stays-Advances _ (Advances-u16 name)

  Stays-u32 : (name : String) → Stays f low (try_read_u32 {X = X} name)
  Stays-u32 name = Stays-Advances _ (Advances-u32 name)

  pub Stays-template_definition_header :
      ForeignAdvances X → Stays f low (read_template_definition_header {X = X})
  unfolding read_template_definition_header
  Stays-template_definition_header forward = Stays-bind _ _ (Stays-u32 _) λ next.
      Stays-bind _ _ (Stays-Advances _ (Advances-guid forward _))
        λ guid. Stays-token _ _ (Advances-u32 _)

  pub Stays-fragment_header : Stays f low (read_fragment_header {X = X})
  unfolding read_fragment_header
  Stays-fragment_header =
      Stays-bind _ _ (Stays-u8 _)
        λ major. Stays-bind _ _ (Stays-u8 _) λ minor. Stays-token _ _ (Advances-u8 _)

  pub Stays-pi_data : Stays f low (read_processing_instruction_data {X = X})
  unfolding read_processing_instruction_data
  Stays-pi_data = Stays-token _ _ (Advances-len_prefixed _ false)

  pub Stays-substitution_descriptor :
      (optional : Bool) → Stays f low (read_substitution_descriptor {X = X} optional)
  unfolding read_substitution_descriptor
  Stays-substitution_descriptor optional =
      Stays-bind _ _ (Stays-u16 _)
        λ index. Stays-bind _ _ (Stays-u8 _) λ byte. Stays-wrap _ _ (Stays-check_value_type byte)

  pub Stays-open_start_element :
      (has_attributes is_substitution : Bool)
      → Stays f low (read_open_start_element {X = X} none has_attributes is_substitution)
  unfolding read_open_start_element
  Stays-open_start_element has_attributes is_substitution =
      Stays-position _ λ p h. let e : p + 3 ≡ suc (p + 2) = omega arith in rw e (round (p + 2))
    where
      round :
          (n : ℕ)
          → Stays f low (read_open_start_loop {X = X} (suc n) none has_attributes is_substitution)
      round n = Stays-bind _ _ (Stays-if is_substitution _ _ (Stays-pure 0) (Stays-u16 _)) λ z.
          Stays-bind _ _ (Stays-u32 _) λ data_size.
            Stays-bind _ _ (Stays-Advances _ Advances-name_ref)
              λ name. Stays-wrap _ _ (Stays-if has_attributes _ _ (Stays-u32 _) (Stays-pure 0))

  Stays-value_descriptors : (n : ℕ) → Stays f low (read_value_descriptors {X = X} n)
  unfolding read_value_descriptors
  Stays-value_descriptors zero = Stays-pure []
  Stays-value_descriptors (suc n) = Stays-bind _ _ (Stays-u16 _) λ size.
      Stays-bind _ _ (Stays-u8 _) λ byte. Stays-bind _ _ (Stays-check_value_type byte) λ value_type.
        Stays-bind _ _ (Stays-u8 _) λ empty. Stays-wrap _ _ (Stays-value_descriptors n)

  Stays-realign : (n : ℕ) → low ≤ n → Stays f low (realign {X = X} n)
  unfolding realign
  Stays-realign n h = Stays-position _ λ p k. Stays-if _ _ _ (Stays-seek n h) (Stays-pure tt)

module _ {X : Foreign} {f low : ℕ} (forward : ForeignAdvances X) (ansi_codec : X.Codec)
    (fragment : Option ℕ → Bool → Read X (Tokens X))
    (nested : (size : Option ℕ) (inside : Bool) → Stays f low (fragment size inside)) where
  Stays-substitution_values :
      (ds : List TemplateValueDescriptor)
      → Stays f low (read_substitution_values ansi_codec fragment ds)
  unfolding read_substitution_values
  Stays-substitution_values [] = Stays-pure nil
  Stays-substitution_values (d ∷ ds) = Stays-position _ λ start h.
      Stays-bind _ _ (Stays-value forward ansi_codec fragment nested d.value_type (some d.size))
        λ v. Stays-position _ λ current k.
          Stays-bind _ _
            (Stays-if (is_null v) _ _ (Stays-seek (current + d.size) (omega arith)) (Stays-pure tt))
            λ z.
              Stays-bind _ _ (Stays-realign (start + d.size) (omega arith))
                λ z'. Stays-wrap _ _ (Stays-substitution_values ds)

  pub Stays-template : Stays f low (read_template ansi_codec fragment)
  unfolding read_template
  Stays-template = Stays-bind _ _ (Stays-u8 _) λ z. Stays-bind _ _ (Stays-u32 _) λ template_id.
      Stays-bind _ _ (Stays-u32 _) λ offset. Stays-position _ λ p h.
        Stays-bind _ _
          (Stays-if _ _ _
            (Stays-bind _ _ (Stays-template_definition_header forward)
              λ header. Stays-position _ λ after k. Stays-seek _ (omega arith))
            (Stays-pure tt))
          λ z'. Stays-bind _ _ (Stays-u32 _) λ count.
            Stays-bind _ _ (Stays-value_descriptors count)
              λ ds. Stays-wrap _ _ (Stays-substitution_values ds)
