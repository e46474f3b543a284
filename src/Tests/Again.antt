-- ===== src/Tests/Again.antt =====
-- A deletion that is run twice, at the platform in memory.
use operations_calico_contai.Base.{
  String, ◌≡◌, refl, false, List, [], ◌∷◌, contains, Bool-cases, inl, inr, arith, if◌then◌else◌,
}
use operations_calico_contai.Base.Outcome.{returned, exited}
use operations_calico_contai.Args.{arg_string_or_blank, must_string}
use operations_calico_contai.Args.Laws.{NamesResource, is_set}
use operations_calico_contai.Resources.Execute.{action_delete, debug_log, execute_config_command}
use operations_calico_contai.Resources.Arguments.{get_resource_from_arguments, resource_for}
use operations_calico_contai.ClientManager.{new_client}
use operations_calico_contai.Manager.{StructType-discrete, assert_struct, delete_as, same_metadata}
use operations_calico_contai.Manager.Registrations.{
  init_node, init_policy, init_profile, init_workload_endpoint, registered,
}
use operations_calico_contai.Commands.Manage.{Words, report, manage}
use operations_calico_contai.Commands.Manage.Again.{Forgets, manage-again}
use operations_calico_contai.Tests.Sample.{remove, sample, sample-HasConstructors, sample-HasFields}
use operations_calico_contai.Tests.Environment.{start, delete_args}

contains-remove : (s : String) (xs : List String) → contains (remove s xs) s ≡ false
contains-remove s [] = refl
contains-remove s (x ∷ xs) = ground (arith, contains-remove s xs)

sample-Forgets : Forgets sample
sample-Forgets = record {
  stays_gone = λ client k m s h. (
    m,
    elim (Bool-cases (contains s m)) [
      | inl here ↦ rw here (rw (contains-remove m s) refl)
      | inr absent ↦ rw absent (rw absent refl)
    ],
  );
}

delete_args-NamesResource : NamesResource (delete_args "c" false)
delete_args-NamesResource = record {
  filename = refl;
  kind = (_, refl);
  name = inr (_, refl);
  on_node = inl refl;
  workload = inl refl;
  orchestrator = inl refl;
  scope = inl refl;
  config = (_, refl);
  skip_exists = inl refl;
  skip_not_exists = inr (_, refl);
}

abbrev deleting : Words
deleting = record { verb = "delete"; participle = "deleted" }

manage-again_example :
    (manage sample action_delete deleting
      (delete_args "c" false)
      (manage sample action_delete deleting (delete_args "c" false) start).1).0
    ≡ (if is_set (delete_args "c" false) "--skip-not-exists" then returned tt else exited 1)
unfolding manage execute_config_command get_resource_from_arguments must_string arg_string_or_blank
    resource_for debug_log new_client registered init_workload_endpoint same_metadata init_profile
    init_policy init_node delete_as assert_struct StructType-discrete report
manage-again_example =
    manage-again sample deleting (delete_args "c" false) sample-HasConstructors sample-HasFields
      sample-Forgets delete_args-NamesResource refl start
      ((manage sample action_delete deleting (delete_args "c" false) start).1) refl
