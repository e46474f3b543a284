-- ===== src/Base/Proc.antt =====
-- A process: it reads and changes a system, prints, and returns, exits or panics. What was printed and
-- changed before an exit stays printed and changed.
pub mod Quiet
pub mod Bind
pub mod Ends
use Prim.Native.Nat.{ℕ}
use Prim.Native.String.{String, ◌++◌ as ◌<>◌}
use mathlib.Core.List.{List, [], ◌∷◌, ◌++◌}
use operations_calico_contai.Base.Outcome.{Outcome, returned, exited, panicked}

-- What was printed, one text for each call, and the part of the world that the process acts on.
pub record World {ℓ} (S : Type ℓ) : Type ℓ where
  pub stdout : List String
  pub system : S

abbrev pub Proc {ℓ κ} : Type ℓ → Type κ → Type (ℓ ⊔ κ)
Proc S A = World S → Outcome A × World S

module _ {ℓ κ} {S : Type ℓ} {A : Type κ} where
  abbrev pub pure : A → Proc S A
  pure a w = (returned a, w)

  -- `os.Exit`
  abbrev pub exit : ℕ → Proc S A
  exit n w = (exited n, w)

  abbrev pub panic : Proc S A
  panic w = (panicked, w)

  abbrev pub lift : Outcome A → Proc S A
  lift o w = (o, w)

  -- A call of the system.
  abbrev pub call : (S → A × S) → Proc S A
  call f w = let (a, s) = f w.system in (returned a, record w { system = s })

-- `fmt.Print`
abbrev pub print {ℓ} : {S : Type ℓ} → String → Proc S (Unit {0})
print text w = (returned tt, record w { stdout = w.stdout ++ (text ∷ []) })

-- `fmt.Println`
abbrev pub println {ℓ} : {S : Type ℓ} → String → Proc S (Unit {0})
println text = print (text <> "\n")

module _ {ℓ κ μ} {S : Type ℓ} {A : Type κ} {B : Type μ} where
  abbrev pub continue : Outcome A → (A → Proc S B) → Proc S B
  continue (returned a) f w = f a w
  continue (exited n) f w = (exited n, w)
  continue panicked f w = (panicked, w)

  infixl 5 ◌>>=◌ ◌>>◌
  abbrev pub ◌>>=◌ : Proc S A → (A → Proc S B) → Proc S B
  ◌>>=◌ m f w = let (o, w') = m w in continue o f w'

  abbrev pub ◌>>◌ : Proc S A → Proc S B → Proc S B
  m >> k = m >>= λ _. k
