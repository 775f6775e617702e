-- ===== src/Err/Success.antt =====
-- Code that gets through: its outcome is a value.
use evtx.Prelude.{if◌then◌else◌, ◌≡◌, Bool, true, false}
use evtx.Err.{Outcome, ok, bind}

abbrev pub IsOk : {E A : Type 0} → Outcome E A → Type 0
IsOk {A = A} r = (a : A) × (r ≡ ok a)

module _ {E A : Type 0} where
  pub IsOk-if : (b : Bool) {r s : Outcome E A} → IsOk r → IsOk s → IsOk (if b then r else s)
  IsOk-if true hr hs = hr
  IsOk-if false hr hs = hs

module _ {E A B : Type 0} where
  pub IsOk-bind :
      {r : Outcome E A} (g : A → Outcome E B) → IsOk r → ((a : A) → IsOk (g a)) → IsOk (bind r g)
  IsOk-bind g (a, e) h = rw e (h a)
