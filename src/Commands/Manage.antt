-- ===== src/Commands/Manage.antt =====
-- calicoctl/commands/{apply,create,replace,delete}.go: the four commands that change resources, which
-- differ in their action and in the words of their reports.
pub mod Laws
pub mod Again
use operations_calico_contai.Base.{
  ℕ, zero, suc, String, ◌<>◌, Option, none, some, List, ◌==◌, if◌then◌else◌,
}
use operations_calico_contai.Base.Text.{decimal}
use operations_calico_contai.Base.Result.{Error, message}
use operations_calico_contai.Base.Proc.{Proc, pure, exit, print, ◌>>=◌, ◌>>◌}
use operations_calico_contai.Args.{Args}
use operations_calico_contai.Platform.{Platform}
use operations_calico_contai.Resources.Execute.{
  Action, action_apply, action_create, action_update, action_delete, CommandResults,
  execute_config_command,
}
use operations_calico_contai.Commands.Usage.{Parsed, with_arguments}

-- `%v` of an error
abbrev pub show_error : Option Error → String
show_error none = "<nil>"
show_error (some e) = message e

-- "apply" and "applied" in apply.go, and so on.
pub record Words : Type 0 where
  pub verb : String
  pub participle : String

module _ {p : Platform} (words : Words) (results : CommandResults p) where
  where_none_handled : ℕ → String
  where_none_handled zero = "No resources specified in file\n"
  where_none_handled (suc zero) =
      "Failed to "
      <> words.verb
      <> " '"
      <> results.single_kind
      <> "' resource: "
      <> show_error results.err
      <> "\n"
  where_none_handled (suc (suc _)) =
      if results.single_kind == ""
      then "Failed to " <> words.verb <> " any resources: " <> show_error results.err <> "\n"
      else "Failed to "
        <> words.verb
        <> " any '"
        <> results.single_kind
        <> "' resources: "
        <> show_error results.err
        <> "\n"

  all_handled : String
  unfolding decimal
  all_handled =
      if results.single_kind == ""
      then "Successfully "
        <> words.participle
        <> " "
        <> decimal results.num_handled
        <> " resource(s)\n"
      else "Successfully "
        <> words.participle
        <> " "
        <> decimal results.num_handled
        <> " '"
        <> results.single_kind
        <> "' resource(s)\n"

  some_handled : String
  unfolding decimal
  some_handled =
      words.participle
      <> " the first "
      <> decimal results.num_handled
      <> " out of "
      <> decimal results.num_resources
      <> (if results.single_kind == "" then "" else " '" <> results.single_kind <> "'")
      <> " resources:\n"

  -- The test on the error, where some resource was handled.
  report_handled : Option Error → Proc p.Store (Unit {0})
  report_handled none = print all_handled
  report_handled (some e) = do
    print "Partial success: "
    print some_handled
    print ("Hit error: " <> show_error results.err <> "\n")
    exit 1

  -- The tests on the number of resources that were handled.
  report_count : ℕ → Proc p.Store (Unit {0})
  unfolding report_handled where_none_handled
  report_count zero = do print (where_none_handled results.num_resources); exit 1
  report_count (suc _) = report_handled results.err

  -- The report of the results, with the exit status.
  unfoldable pub report : Proc p.Store (Unit {0})
  unfolding report_count all_handled some_handled
  report =
      if results.file_invalid
      then (do print ("Error processing input file: " <> show_error results.err <> "\n"); exit 1)
      else report_count results.num_handled

module _ (p : Platform) where
  unfoldable pub manage : Action → Words → Args → Proc p.Store (Unit {0})
  unfolding execute_config_command report
  manage action words args = do results ← execute_config_command p args action; report words results

  module _ (argv : List String) (answer : Parsed) where
    -- Apply
    unfoldable pub apply : Proc p.Store (Unit {0})
    unfolding with_arguments manage
    apply =
        with_arguments argv answer
          (manage action_apply (record { verb = "apply"; participle = "applied" }))

    -- Create
    unfoldable pub create : Proc p.Store (Unit {0})
    unfolding with_arguments manage
    create =
        with_arguments argv answer
          (manage action_create (record { verb = "create"; participle = "created" }))

    -- Replace
    unfoldable pub replace : Proc p.Store (Unit {0})
    unfolding with_arguments manage
    replace =
        with_arguments argv answer
          (manage action_update (record { verb = "replace"; participle = "replaced" }))

    -- Delete
    unfoldable pub delete : Proc p.Store (Unit {0})
    unfolding with_arguments manage
    delete =
        with_arguments argv answer
          (manage action_delete (record { verb = "delete"; participle = "deleted" }))
