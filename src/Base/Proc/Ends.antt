-- ===== src/Base/Proc/Ends.antt =====
-- Processes that may print and change the system, and that return or exit with the status 1: they do
-- not panic.
use mathlib.Core.Path.{◌≡◌}
use operations_calico_contai.Base.Outcome
use operations_calico_contai.Base.Outcome.{Outcome, returned, exited, panicked}
use operations_calico_contai.Base.Proc.{World, Proc, lift, ◌>>=◌, ◌>>◌, continue}

-- The outcome is a return, or an exit with the status 1.
abbrev pub Ends {ℓ} : {A : Type ℓ} → Outcome A → Type 0
Ends (returned a) = Unit {0}
Ends (exited n) = n ≡ 1
Ends panicked = ⊥

pub bind-Ends :
    {A B : Type 0} (o : Outcome A) (f : A → Outcome B)
    → Ends o
    → ((a : A) → Ends (f a))
    → Ends (Outcome.◌>>=◌ o f)
bind-Ends (returned a) f ends then_ends = then_ends a
bind-Ends (exited n) f ends then_ends = ends
bind-Ends panicked f ends then_ends = ends

module _ {S : Type 0} where
  abbrev pub EndsWell : {A : Type 0} → Proc S A → Type 0
  EndsWell m = (w : World S) → Ends (m w).0

  pub lift-EndsWell : {A : Type 0} (o : Outcome A) → Ends o → EndsWell (lift o)
  lift-EndsWell o ends w = ends

  pub continue-Ends :
      {A B : Type 0} (o : Outcome A) (f : A → Proc S B) (v : World S)
      → Ends o
      → ((a : A) → Ends (f a v).0)
      → Ends (continue o f v).0
  continue-Ends (returned a) f v ends then_ends = then_ends a
  continue-Ends (exited n) f v ends then_ends = ends
  continue-Ends panicked f v ends then_ends = ends

  -- What follows a process, which may look at its value.
  pub bind-EndsWell :
      {A B : Type 0} (m : Proc S A) (f : A → Proc S B)
      → EndsWell m
      → ((a : A) → EndsWell (f a))
      → EndsWell (m >>= f)
  bind-EndsWell m f ends then_ends w =
      continue-Ends (m w).0 f (m w).1 (ends w) (λ a. then_ends a (m w).1)

  pub then-EndsWell :
      {B : Type 0} (m : Proc S (Unit {0})) (k : Proc S B)
      → EndsWell m
      → EndsWell k
      → EndsWell (m >> k)
  then-EndsWell m k ends then_ends = bind-EndsWell m (λ _. k) ends (λ _. then_ends)
