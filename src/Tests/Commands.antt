-- ===== src/Tests/Commands.antt =====
-- The commands that report, configure, release and print, at concrete parameters.
use operations_calico_contai.Manager.Registrations.{
  init_node, init_policy, init_profile, init_workload_endpoint, registered,
}
use operations_calico_contai.ClientManager.{new_client}
use operations_calico_contai.Resources.Arguments.{get_resource_from_arguments, resource_for}
use operations_calico_contai.Base.{
  String, ◌<>◌, ◌≡◌, ◌≢◌, refl, false, none, some, [], ◌∷◌, arith, eq_iff,
}
use operations_calico_contai.Base.Text.{to_lower}
use operations_calico_contai.Base.Text.{join as join_texts}
use operations_calico_contai.Base.Result.{ok, other}
use operations_calico_contai.Base.Outcome.{returned, exited}
use operations_calico_contai.Base.Proc.{World}
use operations_calico_contai.Args.{arg_string_or_blank, must_string}
use operations_calico_contai.Resources.Convert.{is_list_kind}
use operations_calico_contai.Resources.Convert.Laws.{HasItems}
use operations_calico_contai.Resources.Execute.{
  debug_log, action_delete, CommandResults, no_results, failed, execute_config_command,
}
use operations_calico_contai.Manager.{
  StructType-discrete, assert_struct, delete_as, same_metadata, pointer,
}
use operations_calico_contai.Commands.Manage.{Words, manage}
use operations_calico_contai.Commands.Manage.Laws.{manage-status, manage-hides_errors}
use operations_calico_contai.Commands.Config.{no_node, config_type, nodemesh, ipip}
use operations_calico_contai.Commands.Config.Unset.{IsDefault, config_type-unset_get}
use operations_calico_contai.Commands.Config.Laws.{
  IsShown, Prints, config_type-set_get, config_type-rejects_node,
}
use operations_calico_contai.Commands.Get.{choose, printer, refused, table, template, print_encoded}
use operations_calico_contai.Commands.Get.Laws.{print_encoded-expands}
use operations_calico_contai.Commands.Ipam.{release_ip}
use operations_calico_contai.Commands.Ipam.Laws.{release_ip-returned}
use operations_calico_contai.Base.{◌↔◌, All}
use operations_calico_contai.Base.Text.Split.Laws.{Without, is_comma}
use operations_calico_contai.Commands.Get.Columns.{choose-columns_iff}
use operations_calico_contai.Commands.Config.{loglevel}
use operations_calico_contai.Commands.Config.Inherited.{Inherits, loglevel-unset_inherits}
use operations_calico_contai.Tests.Sample.{sample}
use operations_calico_contai.Tests.Environment.{
  start, delete_args, release_args, node_document, parsers, Configuration, configuration,
  config_client, config_client-IsLawful, ipam_client, encoders,
}

abbrev deleting : Words
deleting = record { verb = "delete"; participle = "deleted" }

abbrev results : CommandResults sample
results = record (no_results sample) {
  num_resources = 1;
  num_handled = 1;
  single_kind = "node";
  resources = none ∷ [];
}

manage-status_example :
    (manage sample action_delete deleting (delete_args "c" false) start).0 ≡ returned tt
unfolding execute_config_command get_resource_from_arguments must_string arg_string_or_blank
    resource_for debug_log new_client registered init_workload_endpoint same_metadata init_profile
    init_policy init_node delete_as assert_struct StructType-discrete
manage-status_example =
    manage-status sample deleting (delete_args "c" false) action_delete start
      (record start { system = [] }) results refl

manage-hides_errors_example :
    ((failed sample (other "no datastore")).err ≢ none)
    × (manage sample action_delete deleting (delete_args "down" false) start
        ≡ (exited 1, record start { stdout = "No resources specified in file\n" ∷ [] }))
unfolding execute_config_command get_resource_from_arguments must_string arg_string_or_blank
    resource_for debug_log new_client
manage-hides_errors_example =
    manage-hides_errors sample deleting (delete_args "down" false) action_delete start start
      (failed sample (other "no datastore")) refl refl refl

abbrev configured : World Configuration
configured = record { stdout = []; system = configuration }

config_type-set_get_example :
    (line : String) × IsShown config_client "off" line
    × Prints
        ((nodemesh config_client).get "")
        (record configured { system = record configuration { mesh = false } })
        line
unfolding config_type nodemesh
config_type-set_get_example =
    config_type-set_get config_client config_client-IsLawful "nodeToNodeMesh" "off" "" configured
      (record configured { system = record configuration { mesh = false } }) refl refl

abbrev node_name : String
node_name = "n1"

config_type-unset_get_example :
    (line : String) × IsDefault config_client "IPIP" line
    × Prints ((ipip config_client).get "") configured line
unfolding config_type ipip
config_type-unset_get_example =
    config_type-unset_get config_client config_client-IsLawful "IPIP" configured configured refl
      refl

is_named : node_name ≢ ""
is_named h = ground (arith, eq_iff "n1" "")

config_type-rejects_node_example :
    ((nodemesh config_client).set "on" "n1" configured ≡ (returned (some no_node), configured))
    × ((nodemesh config_client).unset "n1" configured ≡ (returned (some no_node), configured))
    × ((nodemesh config_client).get "n1" configured ≡ (returned (some no_node), configured))
unfolding config_type
config_type-rejects_node_example =
    config_type-rejects_node config_client "nodetonodemesh" refl is_mesh "on" "n1" configured
      is_named
  where
    is_mesh : to_lower "nodetonodemesh" ≢ "loglevel"
    is_mesh h = ground (arith, eq_iff "nodetonodemesh" "loglevel")

node-HasItems : HasItems sample node_document
unfolding is_list_kind
node-HasItems many = ground arith

print_encoded-expands_example :
    print_encoded sample encoders encoders.marshal_indent "\n"
      (some (pointer node_document) ∷ [])
      start
    ≡ (returned none, record start { stdout = ("[]" <> "\n") ∷ [] })
print_encoded-expands_example =
    print_encoded-expands sample encoders encoders.marshal_indent "\n" "[]" (node_document ∷ [])
      start (node-HasItems, tt) refl

release_ip-returned_example :
    (client : String) × (text : String) × (ip : String) × (must_string release_args "--ip"
      ≡ returned text)
    × (parsers.parse_ip text ≡ some ip)
    × ((ipam_client client).release_ips (ip ∷ []) start.system ≡ (ok [], "released" ∷ "n1" ∷ []))
unfolding release_ip must_string new_client
release_ip-returned_example =
    release_ip-returned sample parsers ipam_client release_args start
      (record {
        stdout = "Successfully released IP address 10.0.0.1\n" ∷ [];
        system = "released" ∷ "n1" ∷ [];
      })
      refl

choose-columns_test :
    choose "custom-columns=NAME,ASN" ≡ printer (table (some ("NAME" ∷ "ASN" ∷ [])) false)
unfolding choose
choose-columns_test = refl

choose-template_test : choose "go-template={{a=b}}" ≡ printer (template "{{a=b}}")
unfolding choose
choose-template_test = refl

choose-blank_test : choose "custom-columns=" ≡ refused "need to specify at least one column"
unfolding choose
choose-blank_test = refl

-- The name of the usage text for a template is not one that the code accepts.
choose-usage_test :
    choose "golang-template=x" ≡ refused "unrecognized output format 'golang-template=x'"
unfolding choose
choose-usage_test = refl

choose-columns_iff_example :
    (choose "custom-columns=NAME,ASN" ≡ printer (table (some ("NAME" ∷ "ASN" ∷ [])) false)) ↔ (
      ("custom-columns=NAME,ASN"
        ≡ "custom-columns" <> ("=" <> join_texts ("NAME" ∷ "ASN" ∷ []) ","))
      × (join_texts ("NAME" ∷ "ASN" ∷ []) "," ≢ "")
      × All (Without is_comma) ("NAME" ∷ "ASN" ∷ []))
choose-columns_iff_example = choose-columns_iff "custom-columns=NAME,ASN" "NAME" ("ASN" ∷ [])

config_client-Inherits : Inherits config_client
config_client-Inherits = record { node_log_level = λ node level s unset global. ground arith }

loglevel-unset_inherits_example :
    Prints
      ((loglevel config_client).get "")
      (record configured { system = record configuration { node_level = none } })
      "info"
    × Prints
        ((loglevel config_client).get "n1")
        (record configured { system = record configuration { node_level = none } })
        ("info" <> " (inherited from global)")
unfolding loglevel
loglevel-unset_inherits_example =
    loglevel-unset_inherits config_client config_client-Inherits "n1" "info" configured
      (record configured { system = record configuration { node_level = none } }) is_named refl refl
