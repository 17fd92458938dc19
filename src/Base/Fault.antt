-- ===== src/Base/Fault.antt =====
-- What a C function can do beside returning: follow a null pointer, reach outside an array, fail
-- an assertion or panic, or run on when the fuel of the model is used up.
use mathlib.Core.Path.{◌≡◌, refl}

pub data Result {ℓ} (R : Type ℓ) : Type ℓ where
  null_deref : Result R
  out_of_bounds : Result R
  assert_failed : Result R
  out_of_fuel : Result R
  ok : R → Result R

-- One call after another: what is not a return ends both.
infixl 5 ◌>>=◌
abbrev pub ◌>>=◌ {ℓ κ} : {R : Type ℓ} {S : Type κ} → Result R → (R → Result S) → Result S
null_deref >>= next = null_deref
out_of_bounds >>= next = out_of_bounds
assert_failed >>= next = assert_failed
out_of_fuel >>= next = out_of_fuel
ok r >>= next = next r

-- Where both calls return, the first one does, and the second one on its result.
pub bind-ok {ℓ κ} :
    {R : Type ℓ} {S : Type κ} {s : S} (first : Result R) (next : R → Result S)
    → (first >>= next) ≡ ok s
    → (r : R) × (first ≡ ok r) × (next r ≡ ok s)
bind-ok null_deref next run = cc
bind-ok out_of_bounds next run = cc
bind-ok assert_failed next run = cc
bind-ok out_of_fuel next run = cc
bind-ok (ok r) next run = (r, refl, run)
