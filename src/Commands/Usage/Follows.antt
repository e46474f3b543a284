-- ===== src/Commands/Usage/Follows.antt =====
-- The arguments that docopt documents that it gives for a usage text: a value of the declared kind for
-- each name, none for any other name, and what one of the patterns asks for.
use operations_calico_contai.Base.{String, ◌≡◌, ◌≢◌, ◌⊎◌, inl, inr, Bool, Option, none, some, List}
use mathlib.Core.Path.{subst}
use operations_calico_contai.Base.Dict.{lookup}
use operations_calico_contai.Args.{Args, Value, nil, text, flag, texts}
use operations_calico_contai.Commands.Usage.Declared.{
  Kind, switch, optional, defaulted, repeated, declared,
}
use operations_calico_contai.Commands.Usage.Pattern.{Matches, pattern_of}

abbrev pub HasKind : Option Kind → Value → Type 0
HasKind none v = v ≡ nil
HasKind (some switch) v = (b : Bool) × (v ≡ flag b)
HasKind (some optional) v = (v ≡ nil) ⊎ ((s : String) × (v ≡ text s))
HasKind (some defaulted) v = (s : String) × (v ≡ text s)
HasKind (some repeated) v = (l : List String) × (v ≡ texts l)

pub record Follows (args : Args) (lines : List String) : Type 0 where
  pub kinds : (name : String) → HasKind (lookup name (declared lines)) (args name)
  pub matches : Matches args (pattern_of lines)

module _ {args : Args} {lines : List String} (f : Follows args lines) (name : String) where
  pub has_kind : {k : Option Kind} → lookup name (declared lines) ≡ k → HasKind k (args name)
  has_kind e = subst (λ k. HasKind k (args name)) e (f.kinds name)

  -- An option that may be left out, and that the pattern asks for.
  pub has_text :
      lookup name (declared lines) ≡ some optional
      → args name ≢ nil
      → (s : String) × (args name ≡ text s)
  has_text e given = elim (has_kind e) [ inl absent ↦ absurd (given absent) | inr there ↦ there ]
