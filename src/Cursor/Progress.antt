-- ===== src/Cursor/Progress.antt =====
-- Readers that return, and how they move the cursor.
use evtx.Prelude.{
  leb, if◌then◌else◌, Bool-cases, length, ℕ, suc, ◌+◌, ◌-◌, ◌≤◌, ◌<◌, ◌≡◌, refl, ◌≢◌, inl, inr,
  Bool, true, false, Option, none, some, List, arith,
}
use evtx.Foreign.{Foreign}
use evtx.Err.{Outcome, ok, err, panic, out_of_fuel, DeserializationError, bind}
use evtx.Cursor.{
  Read, pure, raise, crash, ◌>>=◌, position, buffer_len, seek, read_exact, ok_or, read_uint,
}

-- The reader returned (a value, an error or a panic), with the cursor at `low` at least.
pub data Safe {X : Foreign} {A : Type 0} (low : ℕ)
    : Outcome (DeserializationError X) (A × ℕ) → Type 0 where
  reached : {a : A} {p : ℕ} → low ≤ p → Safe low (ok (a, p))
  failed : {e : DeserializationError X} → Safe low (err e)
  crashed : Safe low panic

-- From a position at `low` or beyond, the reader returns at `low` or beyond. It may count on fuel
-- `f` for the bytes that lie beyond `low`.
pub record Stays {X : Foreign} {A : Type 0} (f low : ℕ) (m : Read X A) : Type 0 where
  pub run : (buf : List ℕ) (p : ℕ) → length buf < f + low → low ≤ p → Safe low (m buf p)

-- The reader returns, and a success has moved the cursor on.
pub record Advances {X : Foreign} {A : Type 0} (m : Read X A) : Type 0 where
  pub run : (buf : List ℕ) (p : ℕ) → Safe (suc p) (m buf p)

module _ {X : Foreign} {A : Type 0} where
  pub Safe-ne-out_of_fuel :
      {low : ℕ} {r : Outcome (DeserializationError X) (A × ℕ)} → Safe low r → r ≢ out_of_fuel
  Safe-ne-out_of_fuel (reached h) = cc
  Safe-ne-out_of_fuel failed = cc
  Safe-ne-out_of_fuel crashed = cc

  pub Safe-weaken :
      {low low' : ℕ} {r : Outcome (DeserializationError X) (A × ℕ)}
      → low' ≤ low
      → Safe low r
      → Safe low' r
  Safe-weaken h (reached k) = reached (omega arith)
  Safe-weaken h failed = failed
  Safe-weaken h crashed = crashed

  pub Safe-if :
      {low : ℕ} (b : Bool) (m n : Read X A) (buf : List ℕ) (p : ℕ)
      → (b ≡ true → Safe low (m buf p))
      → (b ≡ false → Safe low (n buf p))
      → Safe low ((if b then m else n) buf p)
  Safe-if true m n buf p hm hn = hm refl
  Safe-if false m n buf p hm hn = hn refl

  pub Safe-ok-le :
      {low p : ℕ} {r : Outcome (DeserializationError X) (A × ℕ)} {a : A}
      → Safe low r
      → r ≡ ok (a, p)
      → low ≤ p
  Safe-ok-le (reached h) e = ground arith
  Safe-ok-le failed e = cc
  Safe-ok-le crashed e = cc

module _ {X : Foreign} {A B : Type 0} where
  pub Safe-bind :
      {low low' : ℕ} {r : Outcome (DeserializationError X) (A × ℕ)}
      (g : A × ℕ → Outcome (DeserializationError X) (B × ℕ))
      → Safe low r
      → ((a : A) (p : ℕ) → low ≤ p → Safe low' (g (a, p)))
      → Safe low' (bind r g)
  Safe-bind g (reached h) k = k _ _ h
  Safe-bind g failed k = failed
  Safe-bind g crashed k = crashed

  -- The rest may use what the first part read.
  pub Safe-bind_eq :
      {low low' : ℕ} (r : Outcome (DeserializationError X) (A × ℕ))
      (g : A × ℕ → Outcome (DeserializationError X) (B × ℕ))
      → Safe low r
      → ((a : A) (p : ℕ) → r ≡ ok (a, p) → low ≤ p → Safe low' (g (a, p)))
      → Safe low' (bind r g)
  Safe-bind_eq (ok (a, p)) g h k = k a p refl (Safe-ok-le h refl)
  Safe-bind_eq (err e) g h k = failed
  Safe-bind_eq panic g h k = crashed
  Safe-bind_eq out_of_fuel g h k = absurd (Safe-ne-out_of_fuel h refl)

module _ {X : Foreign} {A : Type 0} {f low : ℕ} where
  pub Stays-pure : (a : A) → Stays f low (pure {X = X} a)
  unfolding pure
  Stays-pure a = record { run = λ buf p h k. reached k }

  pub Stays-raise : (e : DeserializationError X) → Stays f low (raise {A = A} e)
  unfolding raise
  Stays-raise e = record { run = λ buf p h k. failed }

  pub Stays-crash : Stays f low (crash {X = X} {A = A})
  unfolding crash
  Stays-crash = record { run = λ buf p h k. crashed }

  pub Stays-ok_or : (e : DeserializationError X) (o : Option A) → Stays f low (ok_or e o)
  unfolding ok_or
  Stays-ok_or e none = Stays-raise e
  Stays-ok_or e (some a) = Stays-pure a

  pub Stays-if :
      (b : Bool) (m n : Read X A) → Stays f low m → Stays f low n → Stays f low (if b then m else n)
  Stays-if true m n hm hn = hm
  Stays-if false m n hm hn = hn

  pub Stays-Advances : (m : Read X A) → Advances m → Stays f low m
  Stays-Advances m h = record { run = λ buf p _ k. Safe-weaken (omega arith) (h.run buf p) }

module _ {X : Foreign} {f low : ℕ} where
  pub Stays-seek : (n : ℕ) → low ≤ n → Stays f low (seek {X = X} n)
  unfolding seek
  Stays-seek n h = record { run = λ buf p _ k. reached h }

  pub Stays-buffer_len : Stays f low (buffer_len {X = X})
  unfolding buffer_len
  Stays-buffer_len = record { run = λ buf p h k. reached k }

  pub Stays-read_exact : (e : DeserializationError X) (n : ℕ) → Stays f low (read_exact e n)
  unfolding read_exact
  Stays-read_exact e n = record {
    run = λ buf p h k. elim (Bool-cases (leb n (length buf - p))) [
      | inl c ↦ rw c (reached (omega arith))
      | inr c ↦ rw c failed
    ];
  }

module _ {X : Foreign} {A B : Type 0} {f low : ℕ} where
  pub Stays-bind :
      (m : Read X A) (g : A → Read X B)
      → Stays f low m
      → ((a : A) → Stays f low (g a))
      → Stays f low (m >>= g)
  unfolding ◌>>=◌
  Stays-bind m g hm hg = record {
    run = λ buf p h k. Safe-bind _ (hm.run buf p h k) λ a p' k'. (hg a).run buf p' h k';
  }

module _ {X : Foreign} {B : Type 0} {f low : ℕ} where
  -- What a reader makes of the current position may use that it is at `low` or beyond.
  pub Stays-position :
      (g : ℕ → Read X B) → ((p : ℕ) → low ≤ p → Stays f low (g p)) → Stays f low (position >>= g)
  unfolding ◌>>=◌ position
  Stays-position g hg = record { run = λ buf p h k. (hg p k).run buf p h k }

module _ {X : Foreign} {A B : Type 0} where
  pub Advances-bind :
      (m : Read X A) (g : A → Read X B)
      → Advances m
      → ((a : A) (f low : ℕ) → Stays f low (g a))
      → Advances (m >>= g)
  unfolding ◌>>=◌
  Advances-bind m g hm hg = record {
    run = λ buf p. Safe-bind _ (hm.run buf p) λ a p' k'.
        Safe-weaken k' ((hg a (suc (length buf)) p').run buf p' (omega arith) (omega arith));
  }

module _ {X : Foreign} where
  pub Advances-read_uint : (e : DeserializationError X) (w : ℕ) → Advances (read_uint e (suc w))
  unfolding read_uint
  Advances-read_uint e w = record {
    run = λ buf p. elim (Bool-cases (leb (suc w) (length buf - p))) [
      | inl c ↦ rw c (reached (omega arith))
      | inr c ↦ rw c failed
    ];
  }

module _ {X : Foreign} (e : DeserializationError X) (w : ℕ) where
  -- A number that was read lay inside the buffer.
  pub read_uint-ok :
      (buf : List ℕ) (p : ℕ) {v p' : ℕ}
      → read_uint e w buf p ≡ ok (v, p')
      → (w ≤ length buf - p) × (p' ≡ p + w)
  unfolding read_uint
  read_uint-ok buf p h = elim (Bool-cases (leb w (length buf - p))) [
    | inl c ↦ ground arith
    | inr c ↦ ground arith
  ]

pub ruleset stays_rules = (
  Stays-pure, Stays-raise, Stays-crash, Stays-ok_or, Stays-if, Stays-read_exact, Stays-buffer_len,
  Stays-bind, Stays-Advances, Advances-read_uint, Advances-bind,
)
