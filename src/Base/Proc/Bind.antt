-- ===== src/Base/Proc/Bind.antt =====
-- A sequence of two processes returns only if both do.
use mathlib.Core.Path.{◌≡◌, refl, ap}
use native.Mathlib.Omega.{arith}
use operations_calico_contai.Base.Outcome.{Outcome, returned, exited, panicked}
use operations_calico_contai.Base.Proc.{World, Proc, ◌>>=◌, continue}

module _ {S A B : Type 0} where
  continue-returned :
      (o : Outcome A) (f : A → Proc S B) (v : World S) {b : B} {w' : World S}
      → continue o f v ≡ (returned b, w')
      → (a : A) × (o ≡ returned a) × (f a v ≡ (returned b, w'))
  continue-returned (returned a) f v h = (a, refl, h)
  continue-returned (exited n) f v h = ground arith
  continue-returned panicked f v h = ground arith

  pub bind-returned :
      (m : Proc S A) (f : A → Proc S B) (w : World S) {b : B} {w' : World S}
      → (m >>= f) w ≡ (returned b, w')
      → (a : A) × ((m w).0 ≡ returned a) × (f a (m w).1 ≡ (returned b, w'))
  bind-returned m f w h = continue-returned (m w).0 f (m w).1 h

  pub bind-value :
      (m : Proc S A) (f : A → Proc S B) (w : World S) {a : A}
      → (m w).0 ≡ returned a
      → ((m >>= f) w).0 ≡ (f a (m w).1).0
  bind-value m f w h = ap (λ o. (continue o f (m w).1).0) h
