-- ===== src/Commands/Node/Checksystem/Laws.antt =====
-- What checksystem requires of a host.
use operations_calico_contai.Base.{
  String, ◌≡◌, inl, inr, refl, ap, ◌∙◌, Bool, true, false, ◌&&◌, Option, none, some, [], ◌∷◌, ◌++◌,
  Bool-cases, arith, if◌then◌else◌,
}
use operations_calico_contai.Base.Text.{trim_space}
use operations_calico_contai.Base.Result.{Error, ok, other}
use operations_calico_contai.Base.Outcome.{returned, exited}
use operations_calico_contai.Base.Proc.{World, Proc, print, ◌>>=◌, ◌>>◌}
use operations_calico_contai.Base.Proc.Bind.{bind-value}
use operations_calico_contai.Commands.Node.Host.{Host}
use operations_calico_contai.Commands.Node.Checksystem.{
  min_kernel_version, check_kernel_version, detected, check_each, judge, check_kernel_modules,
  conclude, check_system,
}

module _ {S : Type 0} (h : Host S) where
  -- The error where a module is missing.
  abbrev pub missing_unless : Bool → Option Error
  missing_unless true = none
  missing_unless false = some (other "One of more kernel modules missing")

  -- Where `uname` and `lsmod` can be run, the check of the modules changes nothing, and returns an error
  -- unless xt_set is detected; ip6_tables may be missing.
  pub check_kernel_modules-verdict :
      (version lsmod : String) (w : World S)
      → h.output ("uname" ∷ "-r" ∷ []) w.system ≡ ok version
      → h.output ("lsmod" ∷ []) w.system ≡ ok lsmod
      → ((check_kernel_modules h w).0
          ≡ returned (missing_unless (detected h (trim_space version) lsmod "xt_set" w.system)))
        × ((check_kernel_modules h w).1.system ≡ w.system)
  unfolding check_kernel_modules check_each judge
  check_kernel_modules-verdict version lsmod w uname modules =
      elim (Bool-cases (detected h (trim_space version) lsmod "xt_set" w.system)) [
        | inl x ↦ elim (Bool-cases (detected h (trim_space version) lsmod "ip6_tables" w.system)) [
          | inl i ↦ ground arith
          | inr i ↦ ground arith
        ]
        | inr x ↦ elim (Bool-cases (detected h (trim_space version) lsmod "ip6_tables" w.system)) [
          | inl i ↦ ground arith
          | inr i ↦ ground arith
        ]
      ]

  mismatch_unless : Bool → Option Error
  mismatch_unless true = none
  mismatch_unless false = some (other "Kernel version mismatch")

  check_kernel_version-verdict :
      (version : String) (w : World S)
      → h.output ("uname" ∷ "-r" ∷ []) w.system ≡ ok version
      → ((check_kernel_version h w).0
          ≡ returned (mismatch_unless (h.at_least (trim_space version) min_kernel_version)))
        × ((check_kernel_version h w).1.system ≡ w.system)
  unfolding check_kernel_version mismatch_unless
  check_kernel_version-verdict version w uname =
      elim (Bool-cases (h.at_least (trim_space version) min_kernel_version)) [
        | inl new ↦ ground arith
        | inr old ↦ ground arith
      ]

  conclude-status :
      (new found : Bool) (w : World S)
      → (conclude {S = S} h (mismatch_unless new) (missing_unless found) w).0
        ≡ (if new && found then returned tt else exited 1)
  unfolding conclude mismatch_unless
  conclude-status true true w = refl
  conclude-status true false w = refl
  conclude-status false true w = refl
  conclude-status false false w = refl

  with_version : Option Error → Proc S (Unit {0})
  with_version version = do
    print "Checking kernel modules...\n"
    modules ← check_kernel_modules h
    conclude h version modules

  with_version-status :
      (new : Bool) (version lsmod : String) (v : World S) (s : S)
      → v.system ≡ s
      → h.output ("uname" ∷ "-r" ∷ []) s ≡ ok version
      → h.output ("lsmod" ∷ []) s ≡ ok lsmod
      → (with_version (mismatch_unless new) v).0 ≡ (
          if new && detected h (trim_space version) lsmod "xt_set" s then returned tt else exited 1)
  unfolding with_version
  with_version-status new version lsmod v s same uname modules =
      let printed : World S = record v {
        stdout = v.stdout ++ ("Checking kernel modules...\n" ∷ []);
      } in
      let (verdict, _) =
        check_kernel_modules-verdict version lsmod printed (rw same uname) (rw same modules) in
      bind-value (check_kernel_modules h) (conclude h (mismatch_unless new)) printed verdict
      ∙ conclude-status new _ _
      ∙ ap
          (λ t.
            if new && detected h (trim_space version) lsmod "xt_set" t
            then returned tt
            else exited 1)
          same

  -- Run by root, where `uname` and `lsmod` can be run, checksystem returns if the version of
  -- the kernel is new enough and xt_set is detected, and exits with the status 1 otherwise.
  pub check_system-status :
      (version lsmod : String) (w : World S)
      → h.uid ≡ 0
      → h.output ("uname" ∷ "-r" ∷ []) w.system ≡ ok version
      → h.output ("lsmod" ∷ []) w.system ≡ ok lsmod
      → (check_system h w).0 ≡ (
          if h.at_least (trim_space version) min_kernel_version
            && detected h (trim_space version) lsmod "xt_set" w.system
          then returned tt
          else exited 1)
  unfolding check_system with_version
  check_system-status version lsmod w root uname modules =
      let printed : World S = record w {
        stdout = w.stdout ++ ("Checking kernel version...\n" ∷ []);
      } in
      let (verdict, same) = check_kernel_version-verdict version printed uname in
      rw (root, check_system)
        (bind-value (check_kernel_version h) with_version printed verdict
          ∙ with_version-status _ version lsmod _ w.system same uname modules)
