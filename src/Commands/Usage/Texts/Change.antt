-- ===== src/Commands/Usage/Texts/Change.antt =====
-- calicoctl: the texts of the commands that apply, create and replace resources.
use operations_calico_contai.Base.{String, List, [], ◌∷◌, ◌++◌}
use operations_calico_contai.Commands.Usage.Texts.Intro.{datastore_intro}

-- `doc` in commands/apply.go, with its lines cut apart.
unfoldable pub apply_lines : List String
unfolding datastore_intro
apply_lines =
    datastore_intro
    ++ ("Usage:" ∷ "  calicoctl apply --filename=<FILENAME> [--config=<CONFIG>]" ∷ "" ∷ "Examples:"
        ∷ "  # Apply a policy using the data in policy.yaml." ∷ "  calicoctl apply -f ./policy.yaml"
        ∷ "" ∷ "  # Apply a policy based on the JSON passed into stdin."
        ∷ "  cat policy.json | calicoctl apply -f -" ∷ "" ∷ "Options:"
        ∷ "  -h --help                 Show this screen."
        ∷ "  -f --filename=<FILENAME>  Filename to use to apply the resource.  If set to"
        ∷ "                            \"-\" loads from stdin."
        ∷ "  -c --config=<CONFIG>      Path to the file containing connection"
        ∷ "                            configuration in YAML or JSON format."
        ∷ "                            [default: /etc/calico/calicoctl.cfg]" ∷ "" ∷ "Description:"
        ∷ "  The apply command is used to create or replace a set of resources by filename"
        ∷ "  or stdin.  JSON and YAML formats are accepted." ∷ ""
        ∷ "  Valid resource types are node, bgpPeer, hostEndpoint, workloadEndpoint,"
        ∷ "  ipPool, policy, and profile." ∷ "" ∷ "  When applying a resource:"
        ∷ "  -  if the resource does not already exist (as determined by it's primary"
        ∷ "     identifiers) then it is created"
        ∷ "  -  if the resource already exists then the specification for that resource is"
        ∷ "     replaced in it's entirety by the new resource specification." ∷ ""
        ∷ "  The output of the command indicates how many resources were successfully"
        ∷ "  applied, and the error reason if an error occurred." ∷ ""
        ∷ "  The resources are applied in the order they are specified.  In the event of a"
        ∷ "  failure applying a specific resource it is possible to work out which"
        ∷ "  resource failed based on the number of resources successfully applied" ∷ ""
        ∷ "  When applying a resource to perform an update, the complete resource spec"
        ∷ "  must be provided, it is not sufficient to supply only the fields that are"
        ∷ "  being updated." ∷ [])

-- `doc` in commands/create.go, with its lines cut apart.
unfoldable pub create_lines : List String
unfolding datastore_intro
create_lines =
    datastore_intro
    ++ ("Usage:" ∷ "  calicoctl create --filename=<FILENAME> [--skip-exists] [--config=<CONFIG>]"
        ∷ "" ∷ "Examples:" ∷ "  # Create a policy using the data in policy.yaml."
        ∷ "  calicoctl create -f ./policy.yaml" ∷ ""
        ∷ "  # Create a policy based on the JSON passed into stdin."
        ∷ "  cat policy.json | calicoctl create -f -" ∷ "" ∷ "Options:"
        ∷ "  -h --help                 Show this screen."
        ∷ "  -f --filename=<FILENAME>  Filename to use to create the resource.  If set to"
        ∷ "                            \"-\" loads from stdin."
        ∷ "     --skip-exists          Skip over and treat as successful any attempts to"
        ∷ "                            create an entry that already exists."
        ∷ "  -c --config=<CONFIG>      Path to the file containing connection"
        ∷ "                            configuration in YAML or JSON format."
        ∷ "                            [default: /etc/calico/calicoctl.cfg]" ∷ "" ∷ "Description:"
        ∷ "  The create command is used to create a set of resources by filename or stdin."
        ∷ "  JSON and YAML formats are accepted." ∷ ""
        ∷ "  Valid resource types are node, bgpPeer, hostEndpoint, workloadEndpoint,"
        ∷ "  ipPool, policy, and profile." ∷ ""
        ∷ "  Attempting to create a resource that already exists is treated as a"
        ∷ "  terminating error unless the --skip-exists flag is set.  If this flag is set,"
        ∷ "  resources that already exist are skipped." ∷ ""
        ∷ "  The output of the command indicates how many resources were successfully"
        ∷ "  created, and the error reason if an error occurred.  If the --skip-exists"
        ∷ "  flag is set then skipped resources are included in the success count." ∷ ""
        ∷ "  The resources are created in the order they are specified.  In the event of a"
        ∷ "  failure creating a specific resource it is possible to work out which"
        ∷ "  resource failed based on the number of resources successfully created." ∷ [])

-- `doc` in commands/replace.go, with its lines cut apart.
unfoldable pub replace_lines : List String
unfolding datastore_intro
replace_lines =
    datastore_intro
    ++ ("Usage:" ∷ "  calicoctl replace --filename=<FILENAME> [--config=<CONFIG>]" ∷ ""
        ∷ "Examples:" ∷ "  # Replace a policy using the data in policy.yaml."
        ∷ "  calicoctl replace -f ./policy.yaml" ∷ ""
        ∷ "  # Replace a policy based on the JSON passed into stdin."
        ∷ "  cat policy.json | calicoctl replace -f -" ∷ "" ∷ "Options:"
        ∷ "  -h --help                  Show this screen."
        ∷ "  -f --filename=<FILENAME>   Filename to use to replace the resource.  If set"
        ∷ "                             to \"-\" loads from stdin."
        ∷ "  -c --config=<CONFIG>       Path to the file containing connection"
        ∷ "                             configuration in YAML or JSON format."
        ∷ "                             [default: /etc/calico/calicoctl.cfg]" ∷ "" ∷ "Description:"
        ∷ "  The replace command is used to replace a set of resources by filename or"
        ∷ "  stdin.  JSON and YAML formats are accepted." ∷ ""
        ∷ "  Valid resource types are node, bgpPeer, hostEndpoint, workloadEndpoint,"
        ∷ "  ipPool, policy, and profile." ∷ ""
        ∷ "  Attempting to replace a resource that does not exist is treated as a"
        ∷ "  terminating error." ∷ ""
        ∷ "  The output of the command indicates how many resources were successfully"
        ∷ "  eplaced, and the error reason if an error occurred." ∷ ""
        ∷ "  The resources are replaced in the order they are specified.  In the event of"
        ∷ "  a failure replacing a specific resource it is possible to work out which"
        ∷ "  resource failed based on the number of resources successfully replaced." ∷ ""
        ∷ "  When replacing a resource, the complete resource spec must be provided, it is"
        ∷ "  not sufficient to supply only the fields that are being updated." ∷ [])
