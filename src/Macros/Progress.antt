-- ===== src/Macros/Progress.antt =====
-- Every token of src/macros.rs moves the cursor on, and the loop over a sized array ends.
use evtx.Prelude.{
  leb, leb→lt, Option-cases, ℕ, zero, suc, ◌+◌, ◌-◌, ◌≤◌, ◌<◌, String, ◌≡◌, inl, inr, Option, some,
  List, arith,
}
use evtx.Foreign.{Foreign}
use evtx.Err.{DeserializationError}
use evtx.Cursor.{Read, pure, ◌>>=◌, position, read_foreign}
use evtx.Cursor.Progress.{
  Safe, reached, failed, Stays, Advances, Safe-weaken, Safe-if, Safe-bind, Stays-pure,
  Advances-bind, Advances-read_uint,
}
use evtx.Macros.{
  unknown, try_read_u8, try_read_u16, try_read_u32, try_read_u64, try_read_i8, try_read_i16,
  try_read_i32, try_read_i64, try_read_f32, try_read_f64, try_read_bool, try_read_guid,
  try_read_sid, try_read_filetime, try_read_hex32, try_read_hex64, read_array_loop,
  try_read_sized_array,
}

-- The readers of winstructs take a byte at least.
pub record ForeignAdvances (X : Foreign) : Type 0 where
  pub guid :
      (buf : List ℕ) (p : ℕ) {g : X.Guid} {p' : ℕ}
      → X.guid_from_reader buf p ≡ some (g, p')
      → p < p'
  pub sid :
      (buf : List ℕ) (p : ℕ) {s : X.Sid} {p' : ℕ} → X.sid_from_reader buf p ≡ some (s, p') → p < p'
  pub filetime :
      (buf : List ℕ) (p : ℕ) {t : X.DateTime} {p' : ℕ}
      → X.filetime_from_reader buf p ≡ some (t, p')
      → p < p'

module _ {X : Foreign} where
  Advances-read_foreign :
      {A : Type 0} (e : DeserializationError X) (m : List ℕ → ℕ → Option (A × ℕ))
      → ((buf : List ℕ) (p : ℕ) (a : A) (p' : ℕ) → m buf p ≡ some (a, p') → p < p')
      → Advances (read_foreign e m)
  unfolding read_foreign
  Advances-read_foreign e m h = record {
    run = λ buf p. elim (Option-cases (m buf p)) [
      | inl c ↦ rw (c, read_foreign) failed
      | inr ((a, p'), c) ↦ rw (c, read_foreign) (reached (h buf p a p' c))
    ];
  }

  pub Advances-u8 : (name : String) → Advances (try_read_u8 {X = X} name)
  unfolding try_read_u8
  Advances-u8 name = Advances-read_uint _ 0

  pub Advances-u16 : (name : String) → Advances (try_read_u16 {X = X} name)
  unfolding try_read_u16
  Advances-u16 name = Advances-read_uint _ 1

  pub Advances-u32 : (name : String) → Advances (try_read_u32 {X = X} name)
  unfolding try_read_u32
  Advances-u32 name = Advances-read_uint _ 3

  pub Advances-u64 : (name : String) → Advances (try_read_u64 {X = X} name)
  unfolding try_read_u64
  Advances-u64 name = Advances-read_uint _ 7

  pub Advances-f32 : (name : String) → Advances (try_read_f32 {X = X} name)
  unfolding try_read_f32
  Advances-f32 name = Advances-read_uint _ 3

  pub Advances-f64 : (name : String) → Advances (try_read_f64 {X = X} name)
  unfolding try_read_f64
  Advances-f64 name = Advances-read_uint _ 7

  Advances-then-pure :
      {A B : Type 0} (m : Read X A) (g : A → B) → Advances m → Advances (m >>= λ a. pure (g a))
  Advances-then-pure m g h = Advances-bind m _ h λ a f low. Stays-pure (g a)

  pub Advances-i8 : (name : String) → Advances (try_read_i8 {X = X} name)
  unfolding try_read_i8
  Advances-i8 name = Advances-then-pure _ _ (Advances-read_uint _ 0)

  pub Advances-i16 : (name : String) → Advances (try_read_i16 {X = X} name)
  unfolding try_read_i16
  Advances-i16 name = Advances-then-pure _ _ (Advances-read_uint _ 1)

  pub Advances-i32 : (name : String) → Advances (try_read_i32 {X = X} name)
  unfolding try_read_i32
  Advances-i32 name = Advances-then-pure _ _ (Advances-read_uint _ 3)

  pub Advances-i64 : (name : String) → Advances (try_read_i64 {X = X} name)
  unfolding try_read_i64
  Advances-i64 name = Advances-then-pure _ _ (Advances-read_uint _ 7)

  pub Advances-bool : Advances (try_read_bool {X = X})
  unfolding try_read_bool
  Advances-bool = Advances-then-pure _ _ (Advances-i32 unknown)

  pub Advances-hex32 : Advances (try_read_hex32 {X = X})
  unfolding try_read_hex32
  Advances-hex32 = Advances-then-pure _ _ (Advances-read_uint _ 3)

  pub Advances-hex64 : Advances (try_read_hex64 {X = X})
  unfolding try_read_hex64
  Advances-hex64 = Advances-then-pure _ _ (Advances-read_uint _ 7)

  module _ (forward : ForeignAdvances X) where
    pub Advances-guid : (name : String) → Advances (try_read_guid {X = X} name)
    unfolding try_read_guid
    Advances-guid name = Advances-read_foreign _ _ λ buf p a p' e. forward.guid buf p e

    pub Advances-sid : Advances (try_read_sid {X = X})
    unfolding try_read_sid
    Advances-sid = Advances-read_foreign _ _ λ buf p a p' e. forward.sid buf p e

    pub Advances-filetime : Advances (try_read_filetime {X = X})
    unfolding try_read_filetime
    Advances-filetime = Advances-read_foreign _ _ λ buf p a p' e. forward.filetime buf p e

module _ {X : Foreign} {A : Type 0} (unit : Read X A) (unit_advances : Advances unit) where
  -- Each unit uses up a round and a byte at least.
  Safe-read_array_loop :
      (n start size : ℕ) (buf : List ℕ) (p : ℕ)
      → start ≤ p
      → size + start < n + p
      → 1 ≤ n
      → Safe p (read_array_loop n unit start size buf p)
  unfolding read_array_loop ◌>>=◌ position
  Safe-read_array_loop zero start size buf p h k l = absurd (omega arith)
  Safe-read_array_loop (suc n) start size buf p h k l =
      Safe-if (leb size (p - start)) _ _ buf p (λ c. reached (omega arith))
        λ c.
          let left = leb→lt size (p - start) c in
          Safe-bind _ (unit_advances.run buf p) λ a p' k'.
            Safe-bind _
              (Safe-read_array_loop n start size buf p' (omega arith) (omega arith) (omega arith))
              λ rest p'' k''. reached (omega arith)

  pub Stays-sized_array : {f low : ℕ} (size : ℕ) → Stays f low (try_read_sized_array unit size)
  unfolding try_read_sized_array ◌>>=◌ position
  Stays-sized_array size = record {
    run = λ buf p h k.
        Safe-weaken k
          (Safe-read_array_loop (suc size) p size buf p (omega arith) (omega arith) (omega arith));
  }
