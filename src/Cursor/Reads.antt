-- ===== src/Cursor/Reads.antt =====
-- Readers and the bytes that they read: round trips are put together from these rules.
use evtx.Prelude.{
  leb, le→leb, length, take, drop, length-append, ℕ, zero, suc, ◌+◌, ◌-◌, ◌*◌, ◌/◌, ◌%◌, ◌<◌, ◌≡◌,
  refl, sym, ap, ◌∙◌, subst, true, List, [], ◌∷◌, ◌++◌, append_assoc, append-nil, arith,
}
use evtx.Cursor.{Read, pure, ◌>>=◌, read_exact, from_le, read_uint}
use evtx.Err.{Outcome, ok, DeserializationError, bind}
use evtx.Foreign.{Foreign}

-- Wherever the bytes stand, the reader at their first byte gives the value and ends behind them.
pub record Reads {X : Foreign} {A : Type 0} (m : Read X A) (bytes : List ℕ) (a : A) : Type 0 where
  pub run :
      (before behind : List ℕ)
      → m (before ++ (bytes ++ behind)) (length before) ≡ ok (a, length before + length bytes)

-- A number as `w` bytes, the lowest first.
abbrev pub to_le : ℕ → ℕ → List ℕ
to_le zero n = []
to_le (suc w) n = n % 256 ∷ to_le w (n / 256)

pub length-to_le : (w n : ℕ) → length (to_le w n) ≡ w
length-to_le zero n = refl
length-to_le (suc w) n = ap suc (length-to_le w (n / 256))

-- The numbers of `w` bytes are those below.
abbrev pub span : ℕ → ℕ
span zero = 1
span (suc w) = 256 * span w

pub from_le-to_le : (w n : ℕ) → n < span w → from_le (to_le w n) ≡ n
unfolding from_le
from_le-to_le zero n h = omega arith
from_le-to_le (suc w) n h =
    let ih : from_le (to_le w (n / 256)) ≡ n / 256 = from_le-to_le w (n / 256) (omega arith) in
    omega arith

drop-append : {A : Type 0} (xs ys : List A) → drop (length xs) (xs ++ ys) ≡ ys
drop-append [] ys = refl
drop-append (x ∷ xs) ys = drop-append xs ys

take-append : {A : Type 0} (xs ys : List A) → take (length xs) (xs ++ ys) ≡ xs
take-append [] ys = refl
take-append (x ∷ xs) ys = ap (λ zs. x ∷ zs) (take-append xs ys)

module _ {X : Foreign} where
  pub Reads-pure : {A : Type 0} (a : A) → Reads {X = X} (pure a) [] a
  unfolding pure
  Reads-pure a = record { run = λ before behind. ap (λ n. ok (a, n)) (omega arith) }

  bind_run :
      {A B : Type 0} (m : Read X A) (g : A → Read X B) (buf : List ℕ) (p : ℕ) {a : A} {q : ℕ}
      {r : Outcome (DeserializationError X) (B × ℕ)}
      → m buf p ≡ ok (a, q)
      → g a buf q ≡ r
      → (m >>= g) buf p ≡ r
  unfolding ◌>>=◌
  bind_run m g buf p h k = ap (λ r. bind r λ (a, q). g a buf q) h ∙ k

  pub Reads-bind :
      {A B : Type 0} (m : Read X A) (g : A → Read X B) {xs ys : List ℕ} {a : A} {b : B}
      → Reads m xs a
      → Reads (g a) ys b
      → Reads (m >>= g) (xs ++ ys) b
  Reads-bind m g {xs = xs} {ys = ys} {a = a} {b = b} hm hg = record {
    run = λ before behind.
        let left : before ++ (xs ++ (ys ++ behind)) ≡ before ++ ((xs ++ ys) ++ behind) =
          ap (λ z. before ++ z) (sym (append_assoc xs ys behind)) in
        let whole : (before ++ xs) ++ (ys ++ behind) ≡ before ++ ((xs ++ ys) ++ behind) =
          append_assoc before xs (ys ++ behind) ∙ left in
        let first =
          subst (λ buf. m buf (length before) ≡ ok (a, length before + length xs)) left
            (hm.run before (ys ++ behind)) in
        let second =
          subst (λ buf. g a buf (length (before ++ xs)) ≡ ok (b, length (before ++ xs) + length ys))
            whole (hg.run (before ++ xs) behind) in
        bind_run m g _ _ first (
          ap (λ k. g a (before ++ ((xs ++ ys) ++ behind)) k) (sym (length-append before xs))
          ∙ second
          ∙ ap (λ n. ok (b, n)) (omega (arith, length-append before xs, length-append xs ys)));
  }

  pub Reads-read_exact :
      (e : DeserializationError X) (bytes : List ℕ)
      → Reads (read_exact e (length bytes)) bytes bytes
  unfolding read_exact
  Reads-read_exact e bytes = record {
    run = λ before behind.
        let enough : leb (length bytes) (length (before ++ (bytes ++ behind)) - length before)
            ≡ true =
          le→leb _ _
            (omega (arith, length-append before (bytes ++ behind), length-append bytes behind)) in
        rw (enough, drop-append before (bytes ++ behind), take-append bytes behind) refl;
  }

  pub Reads-read_uint :
      (e : DeserializationError X) (w n : ℕ) → n < span w → Reads (read_uint e w) (to_le w n) n
  unfolding read_uint ◌>>=◌
  Reads-read_uint e w n h = record {
    run = λ before behind.
        let exact =
          subst (λ k. Reads (read_exact e k) (to_le w n) (to_le w n)) (length-to_le w n)
            (Reads-read_exact e (to_le w n)) in
        ap (λ r. bind r λ (bs, q). ok (from_le bs, q)) (exact.run before behind)
        ∙ ap (λ v. ok (v, length before + length (to_le w n))) (from_le-to_le w n h);
  }

  -- A last step that does not read.
  pub Reads-map :
      {A B : Type 0} (m : Read X A) (f : A → B) {xs : List ℕ} {a : A}
      → Reads m xs a
      → Reads (m >>= λ b. pure (f b)) xs (f a)
  Reads-map m f {xs = xs} {a = a} h =
      subst (λ ys. Reads (m >>= λ b. pure (f b)) ys (f a)) (append-nil xs)
        (Reads-bind m _ h (Reads-pure (f a)))
