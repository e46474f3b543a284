-- ===== src/Args/Reads.antt =====
-- Reading an argument of a declared kind does not panic.
use operations_calico_contai.Base.{String, ◌≡◌, Bool, List}
use operations_calico_contai.Base.Proc.Ends.{Ends}
use operations_calico_contai.Args.{
  Args, text, flag, texts, must_string, must_bool, must_strings, arg_string_or_blank,
  arg_bool_or_false,
}
use operations_calico_contai.Args.Laws.{
  IsText, IsFlag, must_string-text, arg_string_or_blank-eq, arg_bool_or_false-eq,
}

module _ (args : Args) (name : String) where
  pub must_string-Ends : (s : String) × (args name ≡ text s) → Ends (must_string args name)
  must_string-Ends (s, e) = rw (must_string-text args name e) tt

  pub must_bool-Ends : (b : Bool) × (args name ≡ flag b) → Ends (must_bool args name)
  unfolding must_bool
  must_bool-Ends (b, e) = rw (e, must_bool) tt

  pub must_strings-Ends : (l : List String) × (args name ≡ texts l) → Ends (must_strings args name)
  unfolding must_strings
  must_strings-Ends (l, e) = rw (e, must_strings) tt

  pub arg_string_or_blank-Ends : IsText args name → Ends (arg_string_or_blank args name)
  arg_string_or_blank-Ends h = rw (arg_string_or_blank-eq args name h) tt

  pub arg_bool_or_false-Ends : IsFlag args name → Ends (arg_bool_or_false args name)
  arg_bool_or_false-Ends h = rw (arg_bool_or_false-eq args name h) tt
