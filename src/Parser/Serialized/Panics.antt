-- ===== src/Parser/Serialized/Panics.antt =====
-- What `serialized_records` of src/evtx_parser.rs can yield: a panic unwinds through the iterators,
-- so that nothing comes behind it.
use evtx.Prelude.{All, ℕ, Option, none, some, List, [], ◌∷◌}
use evtx.Foreign.{Foreign}
use evtx.Err.{Outcome, ok, panic, EvtxError, Settled}
use evtx.Parser.{EvtxParser}
use evtx.Records.{EvtxChunk}
use evtx.Records.Run.{Item}

module _ {E A : Type 0} where
  -- Values and errors, and a panic at most as the last.
  pub data PanicsLast : List (Outcome E A) → Type 0 where
    no_panic : PanicsLast []
    panics : PanicsLast (panic ∷ [])
    settled_next :
        {r : Outcome E A} {rs : List (Outcome E A)}
        → Settled r
        → PanicsLast rs
        → PanicsLast (r ∷ rs)

  abbrev AllSettled : Outcome ⊥ (List (Outcome E A)) → Type 0
  AllSettled (ok rs) = All Settled rs
  AllSettled r = Unit

module _ {X : Foreign} {A : Type 0} (p : EvtxParser X)
    (f : EvtxChunk X → Item X → Outcome (EvtxError X) A) (fuel : ℕ) where
  -- Where there is a list of items, a panic is at most its last.
  abbrev Yields : Option (List (Outcome (EvtxError X) A)) → Type 0
  Yields none = Unit
  Yields (some items) = PanicsLast items
