-- ===== src/Args.antt =====
-- calicoctl/commands/argutils: the arguments that docopt has parsed, and the two accessors.
pub mod Laws
pub mod Reads
pub mod Validate
use operations_calico_contai.Base.{ℕ, String, Bool, false, List}
use operations_calico_contai.Base.Outcome.{Outcome, returned, panicked}

-- A value of the parsed map. A key that is not in the map reads as `nil` too.
pub data Value : Type 0 where
  nil : Value
  text : String → Value
  flag : Bool → Value
  texts : List String → Value
  number : ℕ → Value

abbrev pub Args : Type 0
Args = String → Value

-- `args[name].(string)`
unfoldable pub must_string : Args → String → Outcome String
must_string args name = elim (args name) [ text s ↦ returned s | _ ↦ panicked ]

-- `args[name].(bool)`
unfoldable pub must_bool : Args → String → Outcome Bool
must_bool args name = elim (args name) [ flag b ↦ returned b | _ ↦ panicked ]

-- `args[name].([]string)`
unfoldable pub must_strings : Args → String → Outcome (List String)
must_strings args name = elim (args name) [ texts l ↦ returned l | _ ↦ panicked ]

-- ArgStringOrBlank
unfoldable pub arg_string_or_blank : Args → String → Outcome String
unfolding must_string
arg_string_or_blank args name = elim (args name) [ nil ↦ returned "" | _ ↦ must_string args name ]

-- ArgBoolOrFalse
unfoldable pub arg_bool_or_false : Args → String → Outcome Bool
unfolding must_bool
arg_bool_or_false args name = elim (args name) [ nil ↦ returned false | _ ↦ must_bool args name ]
