-- ===== src/Commands/Usage/Texts/Select.antt =====
-- calicoctl: the texts of the commands that can name a resource.
use operations_calico_contai.Base.{String, List, [], ◌∷◌, ◌++◌}
use operations_calico_contai.Commands.Usage.Texts.Intro.{datastore_intro}

-- `doc` in commands/delete.go, with its lines cut apart.
unfoldable pub delete_lines : List String
unfolding datastore_intro
delete_lines =
    datastore_intro
    ++ ("Usage:" ∷ "  calicoctl delete ([--scope=<SCOPE>] [--node=<NODE>] [--orchestrator=<ORCH>]"
        ∷ "                    [--workload=<WORKLOAD>] (<KIND> [<NAME>]) |"
        ∷ "                   --filename=<FILE>)"
        ∷ "                   [--skip-not-exists] [--config=<CONFIG>]" ∷ "" ∷ "Examples:"
        ∷ "  # Delete a policy using the type and name specified in policy.yaml."
        ∷ "  calicoctl delete -f ./policy.yaml" ∷ ""
        ∷ "  # Delete a policy based on the type and name in the YAML passed into stdin."
        ∷ "  cat policy.yaml | calicoctl delete -f -" ∷ "" ∷ "  # Delete policy with name \"foo\""
        ∷ "  calicoctl delete policy foo" ∷ "" ∷ "Options:"
        ∷ "  -h --help                 Show this screen."
        ∷ "  -s --skip-not-exists      Skip over and treat as successful, resources that"
        ∷ "                            don't exist."
        ∷ "  -f --filename=<FILENAME>  Filename to use to delete the resource.  If set to"
        ∷ "                            \"-\" loads from stdin."
        ∷ "  -n --node=<NODE>          The node (this may be the hostname of the compute"
        ∷ "                            server if your installation does not explicitly set"
        ∷ "                            the names of each Calico node)."
        ∷ "     --orchestrator=<ORCH>  The orchestrator (valid for workload endpoints)."
        ∷ "     --workload=<WORKLOAD>  The workload (valid for workload endpoints)."
        ∷ "     --scope=<SCOPE>        The scope of the resource type.  One of global,"
        ∷ "                            node.  This is only valid for BGP peers and is used"
        ∷ "                            to indicate whether the peer is a global peer or"
        ∷ "                            node-specific."
        ∷ "  -c --config=<CONFIG>      Path to the file containing connection"
        ∷ "                            configuration in YAML or JSON format."
        ∷ "                            [default: /etc/calico/calicoctl.cfg]" ∷ "" ∷ "Description:"
        ∷ "  The delete command is used to delete a set of resources by filename or stdin,"
        ∷ "  or by type and identifiers.  JSON and YAML formats are accepted for file and"
        ∷ "  stdin format." ∷ ""
        ∷ "  Valid resource types are node, bgpPeer, hostEndpoint, workloadEndpoint,"
        ∷ "  ipPool, policy, and profile.  The <TYPE> is case insensitive and may be"
        ∷ "  pluralized." ∷ ""
        ∷ "  Attempting to delete a resource that does not exists is treated as a"
        ∷ "  terminating error unless the --skip-not-exists flag is set.  If this flag is"
        ∷ "  set, resources that do not exist are skipped." ∷ ""
        ∷ "  When deleting resources by type, only a single type may be specified at a"
        ∷ "  time.  The name is required along with any and other identifiers required to"
        ∷ "  uniquely identify a resource of the specified type." ∷ ""
        ∷ "  The output of the command indicates how many resources were successfully"
        ∷ "  deleted, and the error reason if an error occurred.  If the --skip-not-exists"
        ∷ "  flag is set then skipped resources are included in the success count." ∷ ""
        ∷ "  The resources are deleted in the order they are specified.  In the event of a"
        ∷ "  failure deleting a specific resource it is possible to work out which"
        ∷ "  resource failed based on the number of resources successfully deleted." ∷ [])

-- `doc` in commands/get.go, with its lines cut apart.
unfoldable pub get_lines : List String
unfolding datastore_intro
get_lines =
    datastore_intro
    ++ ("Usage:" ∷ "  calicoctl get ([--scope=<SCOPE>] [--node=<NODE>] [--orchestrator=<ORCH>]"
        ∷ "                 [--workload=<WORKLOAD>] (<KIND> [<NAME>]) |"
        ∷ "                --filename=<FILENAME>)"
        ∷ "                [--output=<OUTPUT>] [--config=<CONFIG>]" ∷ "" ∷ "Examples:"
        ∷ "  # List all policy in default output format." ∷ "  calicoctl get policy" ∷ ""
        ∷ "  # List a specific policy in YAML format" ∷ "  calicoctl get -o yaml policy my-policy-1"
        ∷ "" ∷ "Options:" ∷ "  -h --help                    Show this screen."
        ∷ "  -f --filename=<FILENAME>     Filename to use to get the resource.  If set to"
        ∷ "                               \"-\" loads from stdin."
        ∷ "  -o --output=<OUTPUT FORMAT>  Output format.  One of: yaml, json, ps, wide,"
        ∷ "                               custom-columns=..., go-template=...,"
        ∷ "                               go-template-file=...   [Default: ps]"
        ∷ "  -n --node=<NODE>             The node (this may be the hostname of the"
        ∷ "                               compute server if your installation does not"
        ∷ "                               explicitly set the names of each Calico node)."
        ∷ "     --orchestrator=<ORCH>     The orchestrator (valid for workload endpoints)."
        ∷ "     --workload=<WORKLOAD>     The workload (valid for workload endpoints)."
        ∷ "     --scope=<SCOPE>           The scope of the resource type.  One of global,"
        ∷ "                               node.  This is only valid for BGP peers and is"
        ∷ "                               used to indicate whether the peer is a global"
        ∷ "                               peer or node-specific."
        ∷ "  -c --config=<CONFIG>         Path to the file containing connection"
        ∷ "                               configuration in YAML or JSON format."
        ∷ "                               [default: /etc/calico/calicoctl.cfg]" ∷ ""
        ∷ "Description:"
        ∷ "  The get command is used to display a set of resources by filename or stdin,"
        ∷ "  or by type and identifiers.  JSON and YAML formats are accepted for file and"
        ∷ "  stdin format." ∷ ""
        ∷ "  Valid resource types are node, bgpPeer, hostEndpoint, workloadEndpoint,"
        ∷ "  ipPool, policy and profile.  The <TYPE> is case insensitive and may be"
        ∷ "  pluralized." ∷ ""
        ∷ "  Attempting to get resources that do not exist will simply return no results." ∷ ""
        ∷ "  When getting resources by type, only a single type may be specified at a"
        ∷ "  time.  The name and other identifiers (hostname, scope) are optional, and are"
        ∷ "  wildcarded when omitted. Thus if you specify no identifiers at all (other"
        ∷ "  than type), then all configured resources of the requested type will be"
        ∷ "  returned." ∷ ""
        ∷ "  By default the results are output in a ps-style table output.  There are"
        ∷ "  alternative ways to display the data using the --output option:" ∷ ""
        ∷ "    ps                    Display the results in ps-style output."
        ∷ "    wide                  As per the ps option, but includes more headings."
        ∷ "    custom-columns        As per the ps option, but only display the columns"
        ∷ "                          that are requested in the comma-separated list."
        ∷ "    golang-template       Display the results using the specified golang"
        ∷ "                          template.  This can be used to filter results, for"
        ∷ "                          example to return a specific value."
        ∷ "    golang-template-file  Display the results using the golang template that is"
        ∷ "                          contained in the specified file."
        ∷ "    yaml                  Display the results in YAML output format."
        ∷ "    json                  Display the results in JSON output format." ∷ ""
        ∷ "  Note that the data output using YAML or JSON format is always valid to use as"
        ∷ "  input to all of the resource management commands (create, apply, replace,"
        ∷ "  delete, get)." ∷ ""
        ∷ "  Please refer to the docs at http://docs.projectcalico.org for more details on"
        ∷ "  the output formats, including example outputs, resource structure (required"
        ∷ "  for the golang template definitions) and the valid column names (required for"
        ∷ "  the custom-columns option)." ∷ [])
