-- ===== src/Base/Proc/Quiet.antt =====
-- Processes that may print and end, and that leave the system as it is.
use mathlib.Core.Path.{◌≡◌, refl, ◌∙◌}
use operations_calico_contai.Base.Outcome.{Outcome, returned, exited, panicked}
use operations_calico_contai.Base.Proc.{World, Proc, lift, ◌>>=◌, continue}

module _ {S : Type 0} where
  abbrev pub IsQuiet : {A : Type 0} → Proc S A → Type 0
  IsQuiet m = (w : World S) → (m w).1.system ≡ w.system

  pub lift-IsQuiet : {A : Type 0} (o : Outcome A) → IsQuiet (lift o)
  lift-IsQuiet o w = refl

  pub continue-IsQuiet :
      {A B : Type 0} (o : Outcome A) (f : A → Proc S B)
      → ((a : A) → o ≡ returned a → IsQuiet (f a))
      → IsQuiet (continue o f)
  continue-IsQuiet (returned a) f quiet w = quiet a refl w
  continue-IsQuiet (exited n) f quiet w = refl
  continue-IsQuiet panicked f quiet w = refl

  pub bind-IsQuiet :
      {A B : Type 0} (m : Proc S A) (f : A → Proc S B)
      → IsQuiet m
      → ((a : A) → IsQuiet (f a))
      → IsQuiet (m >>= f)
  bind-IsQuiet m f quiet quiets w = continue-IsQuiet (m w).0 f (λ a _. quiets a) (m w).1 ∙ quiet w
