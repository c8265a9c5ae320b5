-- ===== src/Base/Runs.antt =====
-- What a piece of code that loops or follows a pointer comes to: a value, a fault (a read or write
-- through NULL), or more rounds than the fuel allows.
use mathlib.Core.Path.{◌≡◌, refl}

pub data Run {ℓ} (A : Type ℓ) : Type ℓ where
  done : A → Run A
  fault : Run A
  out_of_fuel : Run A

module _ {ℓ κ} {A : Type ℓ} {B : Type κ} where
  abbrev pub and_then : Run A → (A → Run B) → Run B
  and_then (done a) f = f a
  and_then fault f = fault
  and_then out_of_fuel f = out_of_fuel

  pub and_then_done :
      (r : Run A) (f : A → Run B) {b : B}
      → and_then r f ≡ done b
      → (a : A) × (r ≡ done a) × (f a ≡ done b)
  and_then_done (done a) f h = (a, refl, h)
  and_then_done fault f h = cc
  and_then_done out_of_fuel f h = cc
