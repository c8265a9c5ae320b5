-- ===== src/Base/Errors.antt =====
-- The negative errno values that the driver returns, and the result of a fallible call.
use mathlib.Core.Path.{◌≡◌, refl}
use mathlib.Core.Logic.{◌⊎◌, inl, inr}

pub data Errno : Type 0 where
  enomem enoent einval erange enospc eintr eio enodev etime etimedout ebusy enxio : Errno
  other : Errno

-- `ERR_PTR` or a pointer; a call that returns an `int` returns `Result (Unit {0})`.
pub data Result {ℓ} (A : Type ℓ) : Type ℓ where
  ok : A → Result A
  err : Errno → Result A

abbrev pub Status : Type 0
Status = Result (Unit {0})

pattern abbrev pub success : Status
success = ok tt

pub Result-cases {ℓ} :
    {A : Type ℓ} (r : Result A) → ((a : A) × (r ≡ ok a)) ⊎ ((e : Errno) × (r ≡ err e))
Result-cases (ok a) = inl (a, refl)
Result-cases (err e) = inr (e, refl)
