-- ===== src/Display/Decimal.antt =====
-- The decimal text of a number determines it.
use evtx.Prelude.{
  ltb, Bool-cases, length, All, Text, ℕ, zero, suc, ◌+◌, ◌-◌, ◌*◌, ◌/◌, ◌%◌, ◌≤◌, ◌<◌, ◌≡◌, refl,
  sym, ap, ◌∙◌, inl, inr, [], ◌∷◌, ◌++◌, arith,
}
use evtx.Display.{digits, nat_to_string}

-- The number that decimal digits stand for, read on from `acc`.
abbrev pub of_digits : ℕ → Text → ℕ
of_digits acc [] = acc
of_digits acc (c ∷ cs) = of_digits (acc * 10 + (c - 48)) cs

of_digits-append : (acc : ℕ) (s t : Text) → of_digits acc (s ++ t) ≡ of_digits (of_digits acc s) t
of_digits-append acc [] t = refl
of_digits-append acc (c ∷ cs) t = of_digits-append (acc * 10 + (c - 48)) cs t

of_digits-digits : (f n : ℕ) (acc : Text) → n < f → of_digits 0 (digits f n acc) ≡ of_digits n acc
unfolding digits
of_digits-digits zero n acc h = absurd (omega arith)
of_digits-digits (suc f) n acc h =
    let last : (n / 10) * 10 + (48 + n % 10 - 48) ≡ n = omega arith in
    elim (Bool-cases (ltb n 10)) [
      | inl c ↦
          let small : 0 + (48 + n % 10 - 48) ≡ n = ground (arith, c) in
          rw c (ap (λ m. of_digits m acc) small)
      | inr c ↦
          rw c
            (of_digits-digits f (n / 10) _ (ground (arith, c, h)) ∙ ap (λ m. of_digits m acc) last)
    ]

pub of_digits-nat_to_string : (n : ℕ) → of_digits 0 (nat_to_string n) ≡ n
unfolding nat_to_string
of_digits-nat_to_string n = of_digits-digits (suc n) n [] (omega arith)

pub nat_to_string-injective : (m n : ℕ) → nat_to_string m ≡ nat_to_string n → m ≡ n
nat_to_string-injective m n h =
    sym (of_digits-nat_to_string m) ∙ ap (of_digits 0) h ∙ of_digits-nat_to_string n

-- The code points of `0` to `9`.
abbrev pub Digits : Text → Type 0
Digits = All (λ c. (48 ≤ c) × (c < 58))

digits-Digits : (f n : ℕ) (acc : Text) → Digits acc → Digits (digits f n acc)
unfolding digits
digits-Digits zero n acc h = h
digits-Digits (suc f) n acc h =
    let here : (48 ≤ 48 + n % 10) × (48 + n % 10 < 58) = (omega arith, omega arith) in
    elim (Bool-cases (ltb n 10)) [
      | inl c ↦ rw c (here, h)
      | inr c ↦ rw c (digits-Digits f (n / 10) _ (here, h))
    ]

pub nat_to_string-Digits : (n : ℕ) → Digits (nat_to_string n)
unfolding nat_to_string
nat_to_string-Digits n = digits-Digits (suc n) n [] _

length-digits : (f n : ℕ) (acc : Text) → length acc ≤ length (digits f n acc)
unfolding digits
length-digits zero n acc = omega arith
length-digits (suc f) n acc = elim (Bool-cases (ltb n 10)) [
  | inl c ↦ rw c (omega arith)
  | inr c ↦ let more = length-digits f (n / 10) ((48 + n % 10) ∷ acc) in rw c (omega (arith, more))
]

pub length-nat_to_string : (n : ℕ) → 0 < length (nat_to_string n)
unfolding nat_to_string digits
length-nat_to_string n = elim (Bool-cases (ltb n 10)) [
  | inl c ↦ rw c (omega arith)
  | inr c ↦ let more = length-digits n (n / 10) ((48 + n % 10) ∷ []) in rw c (omega (arith, more))
]
