-- ===== src/Base/Outcome.antt =====
-- How a piece of the program ends when it prints nothing: it returns, or it exits or panics, which
-- ends the process.
use Prim.Native.Nat.{ℕ}

pub data Outcome {ℓ} (A : Type ℓ) : Type ℓ where
  returned : A → Outcome A
  exited : ℕ → Outcome A
  panicked : Outcome A

infixl 5 ◌>>=◌
abbrev pub ◌>>=◌ {ℓ κ} : {A : Type ℓ} {B : Type κ} → Outcome A → (A → Outcome B) → Outcome B
returned a >>= f = f a
exited n >>= f = exited n
panicked >>= f = panicked
