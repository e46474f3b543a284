-- ===== src/Tests/Resources.antt =====
-- The commands on resources, at the platform in memory.
use operations_calico_contai.Manager.Registrations.{
  init_node, init_policy, init_profile, init_workload_endpoint, registered,
}
use operations_calico_contai.ClientManager.{new_client}
use operations_calico_contai.Base.{
  ◌≡◌, refl, inl, inr, true, false, none, some, [], ◌∷◌, map, arith,
}
use operations_calico_contai.Base.Text.{to_lower}
use operations_calico_contai.Base.Result.{ok, err, does_not_exist}
use operations_calico_contai.Base.Outcome.{returned, panicked}
use operations_calico_contai.Args.{arg_string_or_blank, must_string}
use operations_calico_contai.Platform.{ResourceKind, node}
use operations_calico_contai.Manager.{
  StructType-discrete, assert_struct, delete_as, same_metadata, struct, pointer,
}
use operations_calico_contai.Resources.Convert.{
  slice_of, elements, is_list_kind, convert_to_slice_of_resources,
}
use operations_calico_contai.Resources.Convert.Laws.{
  HasItems, expand, convert-pointers, convert-structs,
}
use operations_calico_contai.Resources.Arguments.{
  get_resource_from_arguments, Identifiers, resource_for,
}
use operations_calico_contai.Resources.Arguments.Laws.{IsNamed, IsOf, resource_for-IsOf}
use operations_calico_contai.Resources.Execute.{
  debug_log, action_delete, CommandResults, no_results, settle, execute_resource_action,
  initial_results, execute_config_command,
}
use operations_calico_contai.Resources.Execute.Kinds.{initial_results-kind}
use operations_calico_contai.Resources.Execute.Actions.{execute_resource_action-element, settle-err}
use operations_calico_contai.Resources.Execute.Results.{
  Accounted, execute_config_command-Accounted, IsConsistent, execute_config_command-IsConsistent,
}
use operations_calico_contai.Tests.Sample.{
  Document, sample, sample-HasConstructors, sample-HasFields,
}
use operations_calico_contai.Tests.Environment.{start, delete_args, node_document, pools}

abbrev deleted : CommandResults sample
deleted = record (no_results sample) {
  num_resources = 1;
  num_handled = 1;
  single_kind = "node";
  resources = none ∷ [];
}

execute_config_command-Accounted_example :
    Accounted sample
      (delete_args "c" false)
      action_delete
      start
      (execute_config_command sample (delete_args "c" false) action_delete start)
execute_config_command-Accounted_example =
    execute_config_command-Accounted sample (delete_args "c" false) action_delete start

execute_config_command-IsConsistent_example : IsConsistent sample deleted
unfolding execute_config_command get_resource_from_arguments must_string arg_string_or_blank
    resource_for debug_log new_client registered init_workload_endpoint same_metadata init_profile
    init_policy init_node delete_as assert_struct StructType-discrete
execute_config_command-IsConsistent_example =
    execute_config_command-IsConsistent sample (delete_args "c" false) action_delete start
      (record start { system = [] }) deleted refl

execute_resource_action-element_example :
    execute_resource_action sample
      (delete_args "c" false)
      "c"
      action_delete
      (struct node_document)
      start
    ≡ (
      settle sample (delete_args "c" false) (struct node_document) (ok none),
      record start { system = [] },
    )
execute_resource_action-element_example =
    execute_resource_action-element sample sample-HasConstructors (delete_args "c" false) "c"
      action_delete node node_document start refl refl

settle-err_example :
    settle sample (delete_args "c" true) (struct node_document) (err (does_not_exist "n1"))
    ≡ returned (ok (some (struct node_document)))
settle-err_example =
    settle-err sample (delete_args "c" true) (struct node_document) (does_not_exist "n1") (inl refl)
      (inr (true, refl))

pools-HasItems : HasItems sample pools
pools-HasItems many nothing = ground arith

node-HasItems : HasItems sample node_document
unfolding is_list_kind
node-HasItems many = ground arith

convert-pointers_example :
    convert_to_slice_of_resources sample
      (slice_of (elements (map pointer (pools ∷ node_document ∷ []))))
    ≡ returned (map struct (expand sample (pools ∷ node_document ∷ [])))
convert-pointers_example =
    convert-pointers sample (pools ∷ node_document ∷ []) (pools-HasItems, (node-HasItems, tt))

convert-structs_example :
    convert_to_slice_of_resources sample
      (slice_of (elements (map struct (node_document ∷ pools ∷ []))))
    ≡ panicked
unfolding is_list_kind
convert-structs_example = convert-structs sample (node_document ∷ pools ∷ [])

abbrev n1 : Identifiers
n1 = record { name = "n1"; on_node = ""; workload = ""; orchestrator = ""; scope = "" }

resource_for-IsOf_example :
    (k : ResourceKind) × (o : Document) × IsNamed (to_lower "Nodes") k
    × (struct node_document ≡ struct o)
    × IsOf sample-HasConstructors sample-HasFields k o
unfolding resource_for
resource_for-IsOf_example =
    resource_for-IsOf sample-HasConstructors sample-HasFields "Nodes" n1 (struct node_document) refl

initial_results-kind_example :
    let res = initial_results sample (struct node_document ∷ struct node_document ∷ []) in
    (res.num_resources ≡ 2) × (res.single_kind ≡ "node") × (res.num_handled ≡ 0) × (res.err ≡ none)
initial_results-kind_example =
    initial_results-kind sample (struct node_document) (struct node_document ∷ [])
