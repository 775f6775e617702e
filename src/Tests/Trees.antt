-- ===== src/Tests/Trees.antt =====
-- serde_json's values and maps as trees and association lists.
use evtx.Prelude.{
  if◌then◌else◌, Bool-cases, Text, text_eq, text_eq_iff, ℕ, suc, ◌≤◌, ◌≡◌, refl, sym, ap, ◌∙◌, inl,
  inr, Bool, true, false, Option, none, some, List, [], ◌∷◌, arith,
}
use evtx.SerdeJson.{Json}
use evtx.Prelude.Int.{ℤ}

mutual
  pub data Tree : Type 0 where
    null : Tree
    bool : Bool → Tree
    number : ℤ → Tree
    string : Text → Tree
    array : Trees → Tree
    object : Members → Tree

  pub data Trees : Type 0 where
    nil : Trees
    cons : Tree → Trees → Trees

  pub data Members : Type 0 where
    none_left : Members
    entry : Text → Tree → Members → Members

abbrev pub listed : Trees → List Tree
listed nil = []
listed (cons t ts) = t ∷ listed ts

abbrev pub trees : List Tree → Trees
trees [] = nil
trees (t ∷ ts) = cons t (trees ts)

abbrev pub view_tree : Tree → Json Tree Members ℤ
view_tree Tree.null = Json.null
view_tree (Tree.bool b) = Json.bool b
view_tree (Tree.number n) = Json.number n
view_tree (Tree.string s) = Json.string s
view_tree (Tree.array ts) = Json.array (listed ts)
view_tree (Tree.object m) = Json.object m

abbrev pub to_tree : Json Tree Members ℤ → Tree
to_tree Json.null = Tree.null
to_tree (Json.bool b) = Tree.bool b
to_tree (Json.number n) = Tree.number n
to_tree (Json.string s) = Tree.string s
to_tree (Json.array ts) = Tree.array (trees ts)
to_tree (Json.object m) = Tree.object m

abbrev pub lookup : Members → Text → Option Tree
lookup none_left k = none
lookup (entry j t m) k = let rest = lookup m k in if text_eq j k then some t else rest

abbrev pub erase : Members → Text → Members
erase none_left k = none_left
erase (entry j t m) k = let rest = erase m k in if text_eq j k then rest else entry j t rest

abbrev pub count : Members → ℕ
count none_left = 0
count (entry j t m) = suc (count m)

abbrev pub assign : Members → Text → Tree → Members
assign m k t = entry k t (erase m k)

listed-trees : (ts : List Tree) → listed (trees ts) ≡ ts
listed-trees [] = refl
listed-trees (t ∷ ts) = ap (λ us. t ∷ us) (listed-trees ts)

pub view_tree-to_tree : (j : Json Tree Members ℤ) → view_tree (to_tree j) ≡ j
view_tree-to_tree Json.null = refl
view_tree-to_tree (Json.bool b) = refl
view_tree-to_tree (Json.number n) = refl
view_tree-to_tree (Json.string s) = refl
view_tree-to_tree (Json.array ts) = ap (λ us. Json.array us) (listed-trees ts)
view_tree-to_tree (Json.object m) = refl

if_twice :
    (b : Bool) (a c : Option Tree)
    → (if b then none else c) ≡ (if b then none else (if b then a else c))
if_twice true a c = refl
if_twice false a c = refl

not_both : (j k k' : Text) → text_eq j k ≡ false → text_eq j k' ≡ true → text_eq k k' ≡ false
not_both j k k' c d = elim (Bool-cases (text_eq k k')) [
  | inr e ↦ e
  | inl e ↦
      let same : j ≡ k = (text_eq_iff j k').0 d ∙ sym ((text_eq_iff k k').0 e) in
      absurd (cc (c, (text_eq_iff j k).1 same))
]

pub lookup-erase :
    (m : Members) (k k' : Text)
    → lookup (erase m k) k' ≡ (if text_eq k k' then none else lookup m k')
lookup-erase none_left k k' = elim (Bool-cases (text_eq k k')) [
  | inl c ↦ rw c refl
  | inr c ↦ rw c refl
]
lookup-erase (entry j t m) k k' =
    let rest = lookup-erase m k k' in
    elim (Bool-cases (text_eq j k)) [
      | inl c ↦
          let same = (text_eq_iff j k).0 c in
          let moved : text_eq j k' ≡ text_eq k k' = ap (λ s. text_eq s k') same in
          rw (c, rest, moved) (if_twice (text_eq k k') _ _)
      | inr c ↦ elim (Bool-cases (text_eq j k')) [
        | inl d ↦ let apart : text_eq k k' ≡ false = not_both j k k' c d in rw (c, d, apart) refl
        | inr d ↦ rw (c, d) rest
      ]
    ]

pub lookup-assign :
    (m : Members) (k : Text) (t : Tree) (k' : Text)
    → lookup (assign m k t) k' ≡ (if text_eq k k' then some t else lookup m k')
lookup-assign m k t k' = elim (Bool-cases (text_eq k k')) [
  | inl c ↦ rw c refl
  | inr c ↦ rw c (lookup-erase m k k' ∙ rw c refl)
]

count-erase_le : (m : Members) (k : Text) → count (erase m k) ≤ count m
count-erase_le none_left k = omega arith
count-erase_le (entry j t m) k =
    let le = count-erase_le m k in
    elim (Bool-cases (text_eq j k)) [
      | inl c ↦ rw c (omega (arith, le))
      | inr c ↦ rw c (omega (arith, le))
    ]

pub count-erase :
    (m : Members) (k : Text) {t : Tree} → lookup m k ≡ some t → suc (count (erase m k)) ≤ count m
count-erase none_left k e = absurd cc
count-erase (entry j t m) k e = elim (Bool-cases (text_eq j k)) [
  | inl c ↦ let le = count-erase_le m k in rw c (omega (arith, le))
  | inr c ↦ let le = count-erase m k (rw c at e) in rw c (omega (arith, le))
]
