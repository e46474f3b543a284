-- ===== src/Commands/Node/Checksystem.antt =====
-- calicoctl/commands/node/checksystem.go: whether the host meets the requirements.
pub mod Laws
pub mod Names
use operations_calico_contai.Base.{
  String, ◌<>◌, Bool, true, false, ◌||◌, not, Option, none, some, List, [], ◌∷◌, ◌++◌, any, ◌==◌,
  if◌then◌else◌,
}
use operations_calico_contai.Base.Text.{trim_space, pad_right, after_prefix, has_text}
use operations_calico_contai.Base.Result.{Error, Result, ok, err, message, other}
use operations_calico_contai.Base.Outcome.{returned}
use operations_calico_contai.Base.Proc.{Proc, pure, exit, print, ◌>>=◌, ◌>>◌}
use operations_calico_contai.Commands.Usage.{Parsed, with_arguments}
use operations_calico_contai.Commands.Node.Host.{Host, enforce_root}

abbrev pub min_kernel_version : String
min_kernel_version = "2.6.24"

abbrev pub required_modules : List String
required_modules = "xt_set" ∷ "ip6_tables" ∷ []

-- The rest of the regular expression "\\/%s.ko", in which the dot stands for any character.
unfoldable pub any_then_ko : Option String → Bool
unfolding after_prefix
any_then_ko none = false
any_then_ko (some String.[]) = false
any_then_ko (some (String.◌∷◌ c s)) = elim (after_prefix "ko" s) [ some _ ↦ true | none ↦ false ]

unfoldable pub names_module : String → String → Bool
unfolding after_prefix any_then_ko
names_module module_name String.[] = false
names_module module_name (String.◌∷◌ c s) =
    any_then_ko (after_prefix ("/" <> module_name) (String.◌∷◌ c s)) || names_module module_name s

-- printResult
unfoldable pub print_result : {S : Type 0} → String → String → Proc S (Unit {0})
unfolding pad_right
print_result val result = print ("\t\t" <> pad_right 20 val <> "\t\t\t\t\t" <> result <> "\n")

module _ {S : Type 0} (h : Host S) where
  abbrev read : {A : Type 0} → (S → A) → Proc S A
  read f w = (returned (f w.system), w)

  -- checkKernelVersion
  unfoldable pub check_kernel_version : Proc S (Option Error)
  unfolding print_result trim_space
  check_kernel_version = do
    uname ← read (h.output ("uname" ∷ "-r" ∷ []))
    elim uname [
      | err e ↦ do
        print_result "" "FAIL"
        print ("Error executing command: " <> message e <> "\n")
        pure (some e)
      | ok version ↦
          if h.at_least (trim_space version) min_kernel_version
          then (do print_result (trim_space version) "OK"; pure none)
          else (do
            print_result (trim_space version) "FAIL"
            print (
                "Minimum kernel version to run Calico is " <> min_kernel_version
                <> ". Detected kernel version: " <> version)
            pure (some (other "Kernel version mismatch")))
    ]

  -- checkModule: whether it returns no error.
  unfoldable pub check_module : String → String → S → Bool
  unfolding names_module
  check_module filename module_name s = elim (h.read_lines filename s) [
    | none ↦ false
    | some lines ↦ any (names_module module_name) lines
  ]

  -- Whether one of the two files or the output of lsmod names the module.
  unfoldable pub detected : String → String → String → S → Bool
  unfolding check_module has_text
  detected version lsmod module_name s =
      check_module ("/lib/modules/" <> version <> "/modules.dep") module_name s
      || (check_module ("/lib/modules/" <> version <> "/modules.builtin") module_name s
          || has_text module_name lsmod)

  -- The loop over the modules, which returns those that were not found.
  unfoldable pub check_each : String → String → List String → List String → Proc S (List String)
  unfolding detected print_result
  check_each version lsmod [] not_found = pure not_found
  check_each version lsmod (v ∷ vs) not_found = do
    found ← read (detected version lsmod v)
    elim found [
      | true ↦ do print_result v "OK"; check_each version lsmod vs not_found
      | false ↦ do
        print
            ("WARNING: Unable to detect the " <> v <> " module as Loaded/Builtin module or lsmod\n")
        print_result v "FAIL"
        check_each version lsmod vs (not_found ++ (v ∷ []))
    ]

  -- The tests on the modules that were not found.
  unfoldable pub judge : List String → Proc S (Option Error)
  judge [] = pure none
  judge (v ∷ []) =
      if v == "ip6_tables"
      then (do
        print "WARNING: IPv6 will be unavailable as ip6_tables kernel module is not found\n"
        pure none)
      else pure (some (other "One of more kernel modules missing"))
  judge (_ ∷ _ ∷ _) = pure (some (other "One of more kernel modules missing"))

  unfoldable pub fail : Error → Proc S (Option Error)
  fail e = do print ("Error executing command: " <> message e <> "\n"); pure (some e)

  -- checkKernelModules
  unfoldable pub check_kernel_modules : Proc S (Option Error)
  unfolding check_each judge trim_space fail
  check_kernel_modules = do
    uname ← read (h.output ("uname" ∷ "-r" ∷ []))
    elim uname [
      | err e ↦ fail e
      | ok version ↦ do
        lsmod ← read (h.output ("lsmod" ∷ []))
        elim lsmod [
          | err e ↦ fail e
          | ok text ↦ do
            not_found ← check_each (trim_space version) text required_modules []
            judge not_found
        ]
    ]

  -- The tests on `systemOk`.
  unfoldable pub conclude : Option Error → Option Error → Proc S (Unit {0})
  conclude none none = print "System meets minimum system requirements to run Calico!\n"
  conclude _ _ = do
    print "System doesn't meet one or more minimum systems requirements to run Calico\n"
    exit 1

  unfoldable pub check_system : Proc S (Unit {0})
  unfolding enforce_root check_kernel_version check_kernel_modules conclude
  check_system = do
    enforce_root h
    print "Checking kernel version...\n"
    version ← check_kernel_version
    print "Checking kernel modules...\n"
    modules ← check_kernel_modules
    conclude version modules

  -- Checksystem
  unfoldable pub checksystem : List String → Parsed → Proc S (Unit {0})
  unfolding with_arguments check_system
  checksystem argv answer = with_arguments argv answer (λ args. check_system)
