-- ===== src/Args/Laws.antt =====
-- The kinds of values that the usage texts declare for an option.
use operations_calico_contai.Base.{String, ◌≡◌, ◌⊎◌, inl, inr, Bool, false}
use operations_calico_contai.Base.Outcome.{returned}
use operations_calico_contai.Args.{
  Args, nil, text, flag, must_string, must_bool, arg_string_or_blank, arg_bool_or_false,
}

-- The option is a text or absent.
abbrev pub IsText : Args → String → Type 0
IsText args name = (args name ≡ nil) ⊎ ((s : String) × (args name ≡ text s))

-- The option is a flag or absent.
abbrev pub IsFlag : Args → String → Type 0
IsFlag args name = (args name ≡ nil) ⊎ ((b : Bool) × (args name ≡ flag b))

-- What the option is set to.
abbrev pub is_set : Args → String → Bool
is_set args name = elim (args name) [ flag b ↦ b | _ ↦ false ]

abbrev pub text_or_blank : Args → String → String
text_or_blank args name = elim (args name) [ text s ↦ s | _ ↦ "" ]

-- The accessors return, with what the option is set to or with its blank value.
pub arg_bool_or_false-eq :
    (args : Args) (name : String)
    → IsFlag args name
    → arg_bool_or_false args name ≡ returned (is_set args name)
unfolding arg_bool_or_false
arg_bool_or_false-eq args name (inl e) = rw (e, arg_bool_or_false, is_set)
arg_bool_or_false-eq args name (inr (b, e)) = rw (e, arg_bool_or_false, is_set) (rw (e, must_bool))

pub arg_string_or_blank-eq :
    (args : Args) (name : String)
    → IsText args name
    → arg_string_or_blank args name ≡ returned (text_or_blank args name)
unfolding arg_string_or_blank
arg_string_or_blank-eq args name (inl e) = rw (e, arg_string_or_blank, text_or_blank)
arg_string_or_blank-eq args name (inr (s, e)) =
    rw (e, arg_string_or_blank, text_or_blank) (rw (e, must_string))

pub must_string-text :
    (args : Args) (name : String) {s : String}
    → args name ≡ text s
    → must_string args name ≡ returned s
unfolding must_string
must_string-text args name e = rw (e, must_string)

-- The arguments of a command that names a resource, as its usage text declares them.
pub record NamesResource (args : Args) : Type 0 where
  pub filename : args "--filename" ≡ nil
  pub kind : (s : String) × (args "<KIND>" ≡ text s)
  pub name : IsText args "<NAME>"
  pub on_node : IsText args "--node"
  pub workload : IsText args "--workload"
  pub orchestrator : IsText args "--orchestrator"
  pub scope : IsText args "--scope"
  pub config : (s : String) × (args "--config" ≡ text s)
  pub skip_exists : IsFlag args "--skip-exists"
  pub skip_not_exists : IsFlag args "--skip-not-exists"

-- The arguments of a command on resources: a file, or the name of a resource.
pub record OfResources (args : Args) : Type 0 where
  pub config : (s : String) × (args "--config" ≡ text s)
  pub skip_exists : IsFlag args "--skip-exists"
  pub skip_not_exists : IsFlag args "--skip-not-exists"
  pub source : ((s : String) × (args "--filename" ≡ text s)) ⊎ NamesResource args
