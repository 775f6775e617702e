-- ===== src/Err/Bind.antt =====
-- Laws of `bind`.
use evtx.Prelude.{◌≡◌, refl}
use evtx.Err.{Outcome, ok, err, panic, out_of_fuel, bind, map_err}

module _ {E A B : Type 0} where
  pub bind-ok :
      (r : Outcome E A) (g : A → Outcome E B) {b : B}
      → bind r g ≡ ok b
      → (a : A) × (r ≡ ok a) × (g a ≡ ok b)
  bind-ok (ok a) g h = (a, refl, h)
  bind-ok (err e) g h = cc
  bind-ok panic g h = cc
  bind-ok out_of_fuel g h = cc

module _ {E A B C : Type 0} where
  pub bind_assoc :
      (r : Outcome E A) (f : A → Outcome E B) (g : B → Outcome E C)
      → bind r (λ a. bind (f a) g) ≡ bind (bind r f) g
  bind_assoc (ok a) f g = refl
  bind_assoc (err e) f g = refl
  bind_assoc panic f g = refl
  bind_assoc out_of_fuel f g = refl

module _ {E A : Type 0} where
  pub bind_ok : (r : Outcome E A) → bind r (λ a. ok a) ≡ r
  bind_ok (ok a) = refl
  bind_ok (err e) = refl
  bind_ok panic = refl
  bind_ok out_of_fuel = refl

  abbrev pub okay : A → Outcome E A
  okay a = ok a

  pub ok-injective : {a b : A} → okay a ≡ okay b → a ≡ b
  ok-injective h = cc

module _ {E F A : Type 0} where
  pub map_err-ok : (f : E → F) (r : Outcome E A) {a : A} → map_err f r ≡ ok a → r ≡ ok a
  map_err-ok f (ok a) h = cc
  map_err-ok f (err e) h = cc
  map_err-ok f panic h = cc
  map_err-ok f out_of_fuel h = cc
