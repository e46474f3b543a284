-- ===== src/Tests/Promises.antt =====
-- What calicoctl relies on, for the platform in memory and a docopt that answers one command line.
use mathlib.Core.Path.{subst}
use operations_calico_contai.Base.{
  String, ◌≡◌, refl, true, List, [], ◌∷◌, map, All, inl, inr, arith, ◌==◌, if◌then◌else◌,
}
use operations_calico_contai.Base.Result.{ok}
use operations_calico_contai.Base.Proc.Ends.{Ends}
use operations_calico_contai.Args.{Args}
use operations_calico_contai.Platform.{ResourceKind, element}
use operations_calico_contai.Manager.Files.Decodes.{IsOwn, IsNew, IsDecoded, HasZero, Decodes}
use operations_calico_contai.Commands.Usage.{Parsed, parsed, nothing}
use operations_calico_contai.Commands.Usage.Texts.{Usage, main_usage, delete_usage, usage_text}
use operations_calico_contai.Commands.Usage.Texts.Main.{main_lines}
use operations_calico_contai.Commands.Usage.Follows.{Follows}
use operations_calico_contai.Commands.Dispatch.{Environment}
use operations_calico_contai.Commands.Get.{print_table}
use operations_calico_contai.Commands.Get.Printed.{Printed, print_table-Printed}
use operations_calico_contai.Base.{Option, some, false, ◌++◌}
use operations_calico_contai.Base.Result.{Error}
use operations_calico_contai.Base.Outcome.{returned}
use operations_calico_contai.Tests.Environment.{node_document}
use operations_calico_contai.Commands.Ends.Get.{ExecutesTables}
use operations_calico_contai.Base.Proc.{println}
use operations_calico_contai.Args.{text, nil}
use operations_calico_contai.Manager.{pointer}
use operations_calico_contai.Commands.Dispatch.{main_command}
use operations_calico_contai.Commands.Dispatch.Listed.{main_command-unlisted, listed_commands}
use operations_calico_contai.Tests.Sample.{Document, document, sample}
use operations_calico_contai.Tests.Usage.{main_given, delete_given}
use operations_calico_contai.Tests.Environment.{start, encoders, environment}

pub sample-HasZero : HasZero sample
sample-HasZero = record {
  type_of_zero = λ t. refl;
  type_of_set = λ m o. refl;
  metadata_of_set = λ m o. refl;
}

elements-IsOwn :
    (k : ResourceKind) (names : List String) → All (IsOwn sample) (map (document (element k)) names)
elements-IsOwn k [] = tt
elements-IsOwn k (n ∷ names) = ((k, refl, refl), elements-IsOwn k names)

-- A struct of a new one's type, with any members.
filled-IsDecoded : (o : Document) → IsNew sample o → IsDecoded sample o
filled-IsDecoded o (inl own) = inl own
filled-IsDecoded o (inr (k, metadata, struct_type)) =
    inr ((k, metadata, struct_type), (_, rw struct_type refl, elements-IsOwn k o.members))

slice-IsDecoded : (os : List Document) → All (IsNew sample) os → All (IsDecoded sample) os
slice-IsDecoded [] h = tt
slice-IsDecoded (o ∷ os) (h, hs) = (filled-IsDecoded o h, slice-IsDecoded os hs)

ok_eq : {A : Type 0} {a b : A} → ok a ≡ ok b → a ≡ b
ok_eq e = ground arith

pub sample-Decodes : Decodes sample
sample-Decodes = record {
  into = λ b o o' h e.
      subst (IsDecoded sample) (ok_eq e)
        (filled-IsDecoded (record o { name = b.name; members = b.members }) h);
  into_slice = λ b os os' h e. subst (All (IsDecoded sample)) (ok_eq e) (slice-IsDecoded os h);
}

sample-ExecutesTables : ExecutesTables sample encoders
sample-ExecutesTables = λ r headings tpls made. (tpls, refl, refl)

-- docopt parses the usage texts of calicoctl and of delete to the arguments of one command line.
abbrev answer : String → List String → Parsed
answer doc argv =
    if doc == usage_text "" delete_usage
    then parsed delete_given
    else if doc == usage_text "" main_usage
    then parsed main_given
    else nothing

abbrev world : Environment sample
world = record environment { docopt = answer; is_level = λ level. true }

-- `calicoctl delete node n1 --skip-not-exists`
abbrev words : List String
words = "delete" ∷ "node" ∷ "n1" ∷ "--skip-not-exists" ∷ []

-- `calicoctl apply --filename=pools.yaml`
abbrev apply_args : Args
apply_args name =
    if name == "--filename" then text "pools.yaml" else if name == "--config" then text "c" else nil

main_command-unlisted_example :
    main_command sample world "deploy" ("deploy" ∷ "node" ∷ []) start
    ≡ println (usage_text "" main_usage) start
unfolding listed_commands main_lines
main_command-unlisted_example =
    main_command-unlisted sample world "deploy" ("deploy" ∷ "node" ∷ []) start refl

print_table-Printed_example :
    (new : List String) × (e : Option Error) × (print_table sample encoders
        (some ("NAME" ∷ []))
        false
        (some (pointer node_document) ∷ [])
        start
      ≡ (returned e, record start { stdout = start.stdout ++ new }))
    × Printed sample encoders (some ("NAME" ∷ [])) false (some (pointer node_document) ∷ []) new e
print_table-Printed_example =
    print_table-Printed sample encoders (some ("NAME" ∷ [])) false sample-ExecutesTables
      (some (pointer node_document) ∷ []) start ((λ same. ground arith), tt)
