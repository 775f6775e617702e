-- ===== src/Parser/Batches.antt =====
-- The chunks that `serialized_records` of src/evtx_parser.rs allocates ahead, to be parsed in
-- parallel: as many at a time as there are threads.
use evtx.Prelude.{
  length, take, drop, length-drop, ℕ, zero, suc, ◌-◌, ◌<◌, max, ◌≡◌, refl, ap, ◌∙◌, subst, Option,
  none, some, List, [], ◌∷◌, ◌++◌, map, arith,
}
use evtx.Err.{Outcome, ok, err, panic, out_of_fuel, EvtxError, bind, Settled}
use evtx.Parser.{EvtxParser, next_chunk}
use evtx.Foreign.{Foreign}
use evtx.Chunk.{EvtxChunkData}

abbrev pub ChunkResult : Foreign → Type 0
ChunkResult X = Outcome (EvtxError X) EvtxChunkData

module _ {X : Foreign} (p : EvtxParser X) where
  -- `push` of a chunk or its error. A panic of `next` unwinds: there is no batch.
  abbrev add_chunk :
      ChunkResult X → Outcome ⊥ (List (ChunkResult X) × ℕ) → Outcome ⊥ (List (ChunkResult X) × ℕ)
  add_chunk (ok c) rest = bind rest λ (cs, n). ok (ok c ∷ cs, n)
  add_chunk (err e) rest = bind rest λ (cs, n). ok (err e ∷ cs, n)
  add_chunk panic rest = panic
  add_chunk out_of_fuel rest = out_of_fuel

  -- `for _ in 0..num_threads`: the chunks, and the number to go on from. After the last chunk the
  -- iterator is still asked for the rest of the round.
  unfoldable pub allocate_batch : ℕ → ℕ → Outcome ⊥ (List (ChunkResult X) × ℕ)
  allocate_batch zero n = ok ([], n)
  allocate_batch (suc k) n = elim (next_chunk p n) [
    | none ↦ out_of_fuel
    | some (none, n') ↦ allocate_batch k n'
    | some (some c, n') ↦ add_chunk c (allocate_batch k n')
  ]

  abbrev add_batch :
      List (ChunkResult X)
      → Option (List (Outcome ⊥ (List (ChunkResult X))))
      → Option (List (Outcome ⊥ (List (ChunkResult X))))
  add_batch b none = none
  add_batch b (some bs) = some (ok b ∷ bs)

  -- What one batch makes of the rest: an empty batch ends the iteration, and a panic does.
  unfoldable pub after_batch :
      (ℕ → Option (List (Outcome ⊥ (List (ChunkResult X)))))
      → Outcome ⊥ (List (ChunkResult X) × ℕ)
      → Option (List (Outcome ⊥ (List (ChunkResult X))))
  after_batch rest (ok ([], n)) = some []
  after_batch rest (ok (c ∷ cs, n)) = add_batch (c ∷ cs) (rest n)
  after_batch rest (err e) = elim e [ ]
  after_batch rest panic = some (panic ∷ [])
  after_batch rest out_of_fuel = none

  abbrev pub threads : ℕ
  threads = max p.config.num_threads 1

  -- `records_per_chunk`, up to the parsing of the chunks: the batches, and behind them a panic if
  -- allocating the next one panics. The fuel counts the batches; `none` where it or that of a search
  -- does not suffice.
  unfoldable pub batches : ℕ → ℕ → Option (List (Outcome ⊥ (List (ChunkResult X))))
  unfolding after_batch allocate_batch
  batches zero n = none
  batches (suc f) n = after_batch (λ n'. batches f n') (allocate_batch (threads) n)

  -- The chunks that the iterator gives one at a time, from a number on, where it does not panic.
  pub data Chunks : ℕ → List (ChunkResult X) → Type 0 where
    no_more : {n : ℕ} → next_chunk p n ≡ some (none, n) → Chunks n []
    more :
        {n n' : ℕ} {c : ChunkResult X} {cs : List (ChunkResult X)}
        → next_chunk p n ≡ some (some c, n')
        → Settled c
        → Chunks n' cs
        → Chunks n (c ∷ cs)

  allocate-end : (k n : ℕ) → next_chunk p n ≡ some (none, n) → allocate_batch k n ≡ ok ([], n)
  unfolding allocate_batch
  allocate-end zero n e = refl
  allocate-end (suc k) n e = rw (e, allocate_batch) (allocate-end k n e)

  allocate-zero : (n : ℕ) → allocate_batch 0 n ≡ ok ([], n)
  unfolding allocate_batch
  allocate-zero n = refl

  allocate-more :
      (k n : ℕ) {n' : ℕ} {c : ChunkResult X}
      → next_chunk p n ≡ some (some c, n')
      → allocate_batch (suc k) n ≡ add_chunk c (allocate_batch k n')
  unfolding allocate_batch
  allocate-more k n e = rw (e, allocate_batch) refl

  add_chunk-Settled :
      (c : ChunkResult X) (cs : List (ChunkResult X)) (n : ℕ)
      → Settled c
      → add_chunk c (ok (cs, n)) ≡ ok (c ∷ cs, n)
  add_chunk-Settled (ok c) cs n h = refl
  add_chunk-Settled (err e) cs n h = refl
  add_chunk-Settled panic cs n h = elim h [ ]
  add_chunk-Settled out_of_fuel cs n h = elim h [ ]

  allocate-take :
      (k : ℕ) {n : ℕ} (c : ChunkResult X) (cs : List (ChunkResult X))
      → Chunks n (c ∷ cs)
      → (n' : ℕ) × (allocate_batch (suc k) n ≡ ok (c ∷ take k cs, n')) × Chunks n' (drop k cs)
  allocate-take zero {n = n} c cs (more {n' = n'} e s h) = (
    n',
    allocate-more 0 n e ∙ ap (add_chunk c) (allocate-zero n') ∙ add_chunk-Settled c [] n' s,
    h,
  )
  allocate-take (suc k) {n = n} c [] (more {n' = n'} e s (no_more e')) = (
    n',
    allocate-more (suc k) n e
        ∙ ap (add_chunk c) (allocate-end (suc k) n' e')
        ∙ add_chunk-Settled c [] n' s,
    no_more e',
  )
  allocate-take (suc k) {n = n} c (d ∷ cs) (more {n' = n'} e s h) =
      let (m, e', h') = allocate-take k d cs h in
      (
        m,
        allocate-more (suc k) n e ∙ ap (add_chunk c) e' ∙ add_chunk-Settled c (d ∷ take k cs) m s,
        h',
      )

  abbrev pub concat : List (List (ChunkResult X)) → List (ChunkResult X)
  concat [] = []
  concat (b ∷ bs) = b ++ concat bs

  take-drop : {A : Type 0} (k : ℕ) (xs : List A) → take k xs ++ drop k xs ≡ xs
  take-drop zero xs = refl
  take-drop (suc k) [] = refl
  take-drop (suc k) (x ∷ xs) = ap (λ ys. x ∷ ys) (take-drop k xs)

  -- Where the iterator comes to its end without a panic: however many threads there are, the batches
  -- are allocated to the end, within one more than there are chunks, none of them panics, and they
  -- hold the chunks and errors that the iterator gives one at a time, all of them and in their order.
  pub batches-Chunks :
      (f n : ℕ) (cs : List (ChunkResult X))
      → Chunks n cs
      → length cs < f
      → (bs : List (List (ChunkResult X))) × (batches f n ≡ some (map ok bs)) × (concat bs ≡ cs)
  unfolding batches after_batch
  batches-Chunks zero n cs h fuel = absurd (omega arith)
  batches-Chunks (suc f) n [] (no_more e) fuel =
      ([], ap (after_batch λ n'. batches f n') (allocate-end threads n e), refl)
  batches-Chunks (suc f) n (c ∷ cs) h fuel =
      let k = threads - 1 in
      let some_thread : suc k ≡ threads = omega arith in
      let (n', e, h') = allocate-take k c cs h in
      let (bs, e', whole) = batches-Chunks f n' (drop k cs) h' (omega (arith, length-drop k cs)) in
      let batch = subst (λ t. allocate_batch t n ≡ ok (c ∷ take k cs, n')) some_thread e in
      (
        (c ∷ take k cs) ∷ bs,
        ap (after_batch λ m. batches f m) batch ∙ ap (add_batch (c ∷ take k cs)) e',
        ap (λ ys. c ∷ (take k cs ++ ys)) whole ∙ ap (λ ys. c ∷ ys) (take-drop k cs),
      )
