-- ===== src/Json/Probe.antt =====
-- The linear probes of src/json_output.rs end, at the first free slot: of `len + 1` slots one is
-- free, since each taken one is an entry of its own.
use evtx.Prelude.{
  ◌==◌, ==_iff, Bool-cases, Text, ℕ, zero, suc, ◌≤◌, ◌<◌, ◌≡◌, refl, sym, ap, ◌∙◌, subst, ◌≢◌, inl,
  inr, Bool, true, false, Option, none, some, arith,
}
use evtx.Foreign.{Foreign}
use evtx.Json.Insert.{is_some, slot, attributes_key, probe, slot_taken, pair_taken}
use evtx.SerdeJson.{SerdeJson, IsLawful}
use evtx.Json.Slots.{text_eq-ne, slot-injective, attributes_key-injective, slot-ne}
use evtx.Err.{ok}
use evtx.Err.Success.{IsOk}

module _ {E : Type 0} where
  probe-cong :
      (f : ℕ) (taken taken' : ℕ → Bool) (n : ℕ)
      → ((i : ℕ) → n ≤ i → taken i ≡ taken' i)
      → probe {E = E} f taken n ≡ probe f taken' n
  unfolding probe
  probe-cong zero taken taken' n h = refl
  probe-cong (suc f) taken taken' n h =
      rw (h n (omega arith), probe-cong f taken taken' (suc n) (λ i le. h i (omega (arith, le))))
        refl

  -- The probe's result is free, and what it passed over is taken.
  pub probe-first :
      (f : ℕ) (taken : ℕ → Bool) (n : ℕ) {k : ℕ}
      → probe {E = E} f taken n ≡ ok k
      → (taken k ≡ false) × (n ≤ k) × ((i : ℕ) → n ≤ i → i < k → taken i ≡ true)
  unfolding probe
  probe-first zero taken n h = absurd cc
  probe-first (suc f) taken n {k = k} h = elim (Bool-cases (taken n)) [
    | inr e ↦
        let same : n ≡ k = cc (rw e at h) in
        (
          subst (λ j. taken j ≡ false) same e,
          omega (arith, same),
          λ i le lt. absurd (omega (arith, le, lt, same)),
        )
    | inl e ↦
        let (free, le, before) = probe-first f taken (suc n) (rw e at h) in
        (
          free,
          omega (arith, le),
          λ i le' lt. elim (Bool-cases (n == i)) [
            | inl same ↦ subst (λ j. taken j ≡ true) ((==_iff n i).0 same) e
            | inr other ↦ before i (ground (arith, le', other)) lt
          ],
        )
  ]

module _ {X : Foreign} {J : SerdeJson X} (L : IsLawful J) where
  -- A test of a map's slots such that a taken slot is an entry that the later slots do not need.
  abbrev IsCounted : (J.Map → ℕ → Bool) → Type 0
  IsCounted w =
      (m : J.Map) (n : ℕ)
      → w m n ≡ true
      → (m' : J.Map) × (suc (J.len m') ≤ J.len m) × ((i : ℕ) → suc n ≤ i → w m' i ≡ w m i)

  probe-finds :
      (E : Type 0) (w : J.Map → ℕ → Bool)
      → IsCounted w
      → (f : ℕ) (m : J.Map) (n : ℕ) → J.len m < f
      → IsOk (probe {E = E} f (w m) n)
  unfolding probe
  probe-finds E w c zero m n h = absurd (omega (arith, h))
  probe-finds E w c (suc f) m n h = elim (Bool-cases (w m n)) [
    | inr e ↦ (n, rw e refl)
    | inl e ↦
        let (m', len, later) = c m n e in
        let (k, found) = probe-finds E w c f m' (suc n) (omega (arith, h, len)) in
        (k, rw e (sym (probe-cong {E = E} f (w m') (w m) (suc n) later) ∙ found))
  ]

  get-remove_other : (m : J.Map) (k k' : Text) → k ≢ k' → J.get (J.remove m k) k' ≡ J.get m k'
  get-remove_other m k k' h = L.get-remove m k k' ∙ rw (text_eq-ne k k' h) refl

  is_some-Has : (o : Option J.Value) → is_some o ≡ true → (v : J.Value) × (o ≡ some v)
  is_some-Has none h = absurd cc
  is_some-Has (some v) h = (v, refl)

  slot-apart : (name : Text) (n i : ℕ) → suc n ≤ i → slot name n ≢ slot name i
  slot-apart name n i le h =
      let same = slot-injective name n i h in absurd (omega (arith, le, same))

  slot_taken-IsCounted : (name : Text) → IsCounted (λ m n. slot_taken J m name n)
  slot_taken-IsCounted name m n h =
      let (v, e) = is_some-Has _ h in
      (
        J.remove m (slot name n),
        L.len-remove m (slot name n) e,
        λ i le.
            ap (λ o. is_some o)
              (get-remove_other m (slot name n) (slot name i) (slot-apart name n i le)),
      )

  attributes-apart :
      (name : Text) (n i : ℕ)
      → suc n ≤ i
      → attributes_key (slot name n) ≢ attributes_key (slot name i)
  attributes-apart name n i le h =
      slot-apart name n i le (attributes_key-injective (slot name n) (slot name i) h)

  pair_taken-IsCounted : (name : Text) → IsCounted (λ m n. pair_taken J m name n)
  pair_taken-IsCounted name m n h = elim (Bool-cases (is_some (J.get m (slot name n)))) [
    | inl c ↦
        let (v, e) = is_some-Has _ c in
        (
          J.remove m (slot name n),
          L.len-remove m (slot name n) e,
          λ i le.
              rw
                (
                  get-remove_other m (slot name n) (slot name i) (slot-apart name n i le),
                  get-remove_other m (slot name n) (attributes_key (slot name i))
                      (slot-ne name n i),
                )
                refl,
        )
    | inr c ↦
        let (v, e) = is_some-Has (J.get m (attributes_key (slot name n))) (cc (rw c at h)) in
        (
          J.remove m (attributes_key (slot name n)),
          L.len-remove m (attributes_key (slot name n)) e,
          λ i le.
              rw
                (
                  get-remove_other m (attributes_key (slot name n)) (slot name i)
                      (λ q. slot-ne name i n (sym q)),
                  get-remove_other m (attributes_key (slot name n)) (attributes_key (slot name i))
                      (attributes-apart name n i le),
                )
                refl,
        )
  ]

  pub probe-slot :
      (E : Type 0) (m : J.Map) (name : Text)
      → IsOk (probe {E = E} (suc (J.len m)) (λ n. slot_taken J m name n) 1)
  probe-slot E m name =
      probe-finds E _ (slot_taken-IsCounted name) (suc (J.len m)) m 1 (omega arith)

  pub probe-pair :
      (E : Type 0) (m : J.Map) (name : Text)
      → IsOk (probe {E = E} (suc (J.len m)) (λ n. pair_taken J m name n) 1)
  probe-pair E m name =
      probe-finds E _ (pair_taken-IsCounted name) (suc (J.len m)) m 1 (omega arith)
