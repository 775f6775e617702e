-- ===== src/Err/Returns.antt =====
-- Code that returns: its outcome is a value, an error or a panic.
use evtx.Prelude.{if◌then◌else◌, refl, ◌≢◌, Bool, true, false}
use evtx.Err.{Outcome, ok, err, panic, out_of_fuel, bind, map_err}

pub data Returns {E A : Type 0} : Outcome E A → Type 0 where
  returned : {a : A} → Returns (ok a)
  failed : {e : E} → Returns (err e)
  crashed : Returns panic

module _ {E A : Type 0} where
  pub Returns-ne : {r : Outcome E A} → Returns r → r ≢ out_of_fuel
  Returns-ne returned = cc
  Returns-ne failed = cc
  Returns-ne crashed = cc

  pub ne-Returns : (r : Outcome E A) → r ≢ out_of_fuel → Returns r
  ne-Returns (ok a) h = returned
  ne-Returns (err e) h = failed
  ne-Returns panic h = crashed
  ne-Returns out_of_fuel h = absurd (h refl)

  pub Returns-if :
      (b : Bool) {r s : Outcome E A} → Returns r → Returns s → Returns (if b then r else s)
  Returns-if true hr hs = hr
  Returns-if false hr hs = hs

module _ {E A B : Type 0} where
  pub Returns-bind :
      (r : Outcome E A) (g : A → Outcome E B)
      → Returns r
      → ((a : A) → Returns (g a))
      → Returns (bind r g)
  Returns-bind (ok a) g h k = k a
  Returns-bind (err e) g h k = failed
  Returns-bind panic g h k = crashed
  Returns-bind out_of_fuel g h k = absurd (Returns-ne h refl)

module _ {E F A : Type 0} where
  pub Returns-map_err : (f : E → F) {r : Outcome E A} → Returns r → Returns (map_err f r)
  Returns-map_err f returned = returned
  Returns-map_err f failed = failed
  Returns-map_err f crashed = crashed
