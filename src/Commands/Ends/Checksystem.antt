-- ===== src/Commands/Ends/Checksystem.antt =====
-- The check of the host.
use operations_calico_contai.Base.{String, Option, List, [], ◌∷◌, ◌++◌, inl, inr, Bool-cases, arith}
use operations_calico_contai.Base.Text.{trim_space}
use operations_calico_contai.Base.Outcome.{returned}
use operations_calico_contai.Base.Result.{Error, Result, ok, err}
use operations_calico_contai.Base.Proc.{Proc, print, ◌>>=◌, ◌>>◌}
use operations_calico_contai.Base.Proc.Ends.{EndsWell, bind-EndsWell, then-EndsWell}
use operations_calico_contai.Commands.Node.Host.{Host, enforce_root}
use operations_calico_contai.Commands.Node.Checksystem.{
  required_modules, check_kernel_version, detected, check_each, judge, fail, check_kernel_modules,
  conclude, check_system,
}

pub enforce_root-EndsWell : {S : Type 0} (h : Host S) → EndsWell (enforce_root h)
unfolding enforce_root
enforce_root-EndsWell h w = ground arith

module _ {S : Type 0} (h : Host S) where
  check_kernel_version-EndsWell : EndsWell (check_kernel_version h)
  unfolding check_kernel_version
  check_kernel_version-EndsWell w = ground arith

  check_each-EndsWell :
      (version lsmod : String) (vs not_found : List String)
      → EndsWell (check_each h version lsmod vs not_found)
  unfolding check_each
  check_each-EndsWell version lsmod [] not_found w = tt
  check_each-EndsWell version lsmod (v ∷ vs) not_found w =
      elim (Bool-cases (detected h version lsmod v w.system)) [
        | inl found ↦ rw (found, check_each) (check_each-EndsWell version lsmod vs not_found _)
        | inr missing ↦
            rw (missing, check_each)
              (check_each-EndsWell version lsmod vs (not_found ++ (v ∷ [])) _)
      ]

  judge-EndsWell : (not_found : List String) → EndsWell (judge h not_found)
  unfolding judge
  judge-EndsWell not_found w = ground arith

  -- The parts of the check of the modules after each of its two commands.
  abbrev from_lsmod : String → Result String → Proc S (Option Error)
  from_lsmod version r = elim r [
    | err e ↦ fail h e
    | ok text ↦ do
      not_found ← check_each h (trim_space version) text required_modules []
      judge h not_found
  ]

  from_lsmod-EndsWell : (version : String) (r : Result String) → EndsWell (from_lsmod version r)
  unfolding fail
  from_lsmod-EndsWell version (err e) = λ w. tt
  from_lsmod-EndsWell version (ok text) =
      bind-EndsWell (check_each h (trim_space version) text required_modules []) (judge h)
        (check_each-EndsWell (trim_space version) text required_modules []) judge-EndsWell

  abbrev from_uname : Result String → Proc S (Option Error)
  from_uname r = elim r [
    | err e ↦ fail h e
    | ok version ↦ do
      lsmod ← (λ w. (returned (h.output ("lsmod" ∷ []) w.system), w))
      from_lsmod version lsmod
  ]

  from_uname-EndsWell : (r : Result String) → EndsWell (from_uname r)
  unfolding fail
  from_uname-EndsWell (err e) w = tt
  from_uname-EndsWell (ok version) w =
      from_lsmod-EndsWell version (h.output ("lsmod" ∷ []) w.system) w

  check_kernel_modules-EndsWell : EndsWell (check_kernel_modules h)
  unfolding check_kernel_modules
  check_kernel_modules-EndsWell w = from_uname-EndsWell (h.output ("uname" ∷ "-r" ∷ []) w.system) w

  conclude-EndsWell : (version modules : Option Error) → EndsWell (conclude h version modules)
  unfolding conclude
  conclude-EndsWell version modules w = ground arith

  -- The check from its second and from its first heading on.
  abbrev from_modules : Option Error → Proc S (Unit {0})
  from_modules version = do
    print "Checking kernel modules...\n"
    modules ← check_kernel_modules h
    conclude h version modules

  from_modules-EndsWell : (version : Option Error) → EndsWell (from_modules version)
  from_modules-EndsWell version =
      then-EndsWell (print "Checking kernel modules...\n")
        (check_kernel_modules h >>= conclude h version) (λ w. tt)
        (bind-EndsWell (check_kernel_modules h) (conclude h version) check_kernel_modules-EndsWell
          (conclude-EndsWell version))

  -- Whatever the host answers.
  pub check_system-EndsWell : EndsWell (check_system h)
  unfolding check_system
  check_system-EndsWell =
      then-EndsWell (enforce_root h)
        (print "Checking kernel version...\n" >> (check_kernel_version h >>= from_modules))
        (enforce_root-EndsWell h)
        (then-EndsWell (print "Checking kernel version...\n")
          (check_kernel_version h >>= from_modules) (λ w. tt)
          (bind-EndsWell (check_kernel_version h) from_modules check_kernel_version-EndsWell
            from_modules-EndsWell))
