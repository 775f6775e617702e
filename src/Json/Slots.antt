-- ===== src/Json/Slots.antt =====
-- The numbered keys of src/json_output.rs are all different.
use evtx.Prelude.{
  Bool-cases, length, take, length-append, take-length, Text, codes, text_eq, text_eq_iff, ℕ, ◌-◌,
  ◌≡◌, sym, ap, ◌∙◌, subst, ◌≢◌, inl, inr, false, [], ◌∷◌, ◌++◌, append_assoc, arith,
}
use evtx.Json.Insert.{slot, attributes_key}
use evtx.Display.Decimal.{nat_to_string-injective, Digits, nat_to_string-Digits}
use evtx.Display.{nat_to_string}

cancel_left : (s t u : Text) → s ++ t ≡ s ++ u → t ≡ u
cancel_left [] t u h = h
cancel_left (c ∷ cs) t u h = cancel_left cs t u (cc h)

cut : (s t : Text) → take (length (s ++ t) - length t) (s ++ t) ≡ s
cut s t =
    let shorter : length (s ++ t) - length t ≡ length s = omega (arith, length-append s t) in
    rw shorter (take-length s t)

cancel_right : (s t u : Text) → s ++ u ≡ t ++ u → s ≡ t
cancel_right s t u h = sym (cut s u) ∙ ap (λ w. take (length w - length u) w) h ∙ cut t u

All-right : (s t : Text) → Digits (s ++ t) → Digits t
All-right [] t h = h
All-right (c ∷ cs) t (_, h) = All-right cs t h

pub text_eq-ne : (s t : Text) → s ≢ t → text_eq s t ≡ false
text_eq-ne s t h = elim (Bool-cases (text_eq s t)) [
  | inl c ↦ absurd (h ((text_eq_iff s t).0 c))
  | inr c ↦ c
]

pub slot-injective : (name : Text) (m n : ℕ) → slot name m ≡ slot name n → m ≡ n
slot-injective name m n h =
    let tails = cancel_left name (95 ∷ nat_to_string m) (95 ∷ nat_to_string n) h in
    nat_to_string-injective m n (cc tails)

pub attributes_key-injective : (s t : Text) → attributes_key s ≡ attributes_key t → s ≡ t
attributes_key-injective s t h = cancel_right s t (codes "_attributes") h

-- A slot for a value is no slot for attributes.
pub slot-ne : (name : Text) (m n : ℕ) → slot name m ≢ attributes_key (slot name n)
slot-ne name m n h =
    let tails =
      cancel_left name (95 ∷ nat_to_string m) (95 ∷ (nat_to_string n ++ codes "_attributes"))
        (h ∙ append_assoc name (95 ∷ nat_to_string n) (codes "_attributes")) in
    let same : nat_to_string m ≡ nat_to_string n ++ codes "_attributes" = cc tails in
    let digits = subst Digits same (nat_to_string-Digits m) in
    let ((_, below), _) = All-right (nat_to_string n) (codes "_attributes") digits in
    absurd (omega (arith, below))
