-- ===== src/Base/Result.antt =====
-- Go's `error` values and `(T, error)` pairs. The classes of errors are those that the program tells
-- apart in a type switch: the client's two about the existence of a resource, and all the others.
use Prim.Native.String.{String}
use mathlib.Core.Path.{◌≡◌, refl}
use native.Mathlib.Omega.{arith}
use mathlib.Core.Option.{Option, none, some}

pub data Error : Type 0 where
  already_exists : String → Error
  does_not_exist : String → Error
  other : String → Error

-- `err.Error()`
abbrev pub message : Error → String
message (already_exists text) = text
message (does_not_exist text) = text
message (other text) = text

pub data Result {ℓ} (A : Type ℓ) : Type ℓ where
  ok : A → Result A
  err : Error → Result A

infixl 5 ◌>>=◌
abbrev pub ◌>>=◌ {ℓ κ} : {A : Type ℓ} {B : Type κ} → Result A → (A → Result B) → Result B
ok a >>= f = f a
err e >>= f = err e

abbrev pub map {ℓ κ} : {A : Type ℓ} {B : Type κ} → (A → B) → Result A → Result B
map f (ok a) = ok (f a)
map f (err e) = err e

-- The `error` of a call that has no other result.
abbrev pub error_of {ℓ} : {A : Type ℓ} → Result A → Option Error
error_of (ok a) = none
error_of (err e) = some e

-- A chain has a value only if both of its parts have one.
pub bind-ok {ℓ κ} :
    {A : Type ℓ} {B : Type κ} (r : Result A) (f : A → Result B) {b : B}
    → (r >>= f) ≡ ok b
    → (a : A) × (r ≡ ok a) × (f a ≡ ok b)
bind-ok (ok a) f h = (a, refl, h)
bind-ok (err e) f h = absurd (ground arith)
