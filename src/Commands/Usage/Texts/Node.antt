-- ===== src/Commands/Usage/Texts/Node.antt =====
-- calicoctl: the texts of the commands on the node.
use operations_calico_contai.Base.{String, List, [], ◌∷◌, ◌++◌}
use operations_calico_contai.Commands.Usage.Texts.Intro.{datastore_intro}

-- `doc` in commands/node.go, with its lines cut apart.
unfoldable pub node_lines : List String
unfolding datastore_intro
node_lines =
    datastore_intro
    ++ ("Usage:" ∷ "  calicoctl node <command> [<args>...]" ∷ ""
        ∷ "    run          Run the Calico node container image."
        ∷ "    status       View the current status of a Calico node."
        ∷ "    diags        Gather a diagnostics bundle for a Calico node."
        ∷ "    checksystem  Verify the compute host is able to run a Calico node instance." ∷ ""
        ∷ "Options:" ∷ "  -h --help      Show this screen." ∷ "" ∷ "Description:"
        ∷ "  Node specific commands for calicoctl.  These commands must be run directly on"
        ∷ "  the compute host running the Calico node instance." ∷ "  "
        ∷ "  See 'calicoctl node <command> --help' to read about a specific subcommand." ∷ [])

-- `doc` in commands/node/status.go, with its lines cut apart.
unfoldable pub status_lines : List String
status_lines =
    "Usage:" ∷ "  calicoctl node status" ∷ "" ∷ "Options:"
    ∷ "  -h --help                 Show this screen." ∷ "" ∷ "Description:"
    ∷ "  Check the status of the Calico node instance.  This incudes the status and"
    ∷ "  uptime of the node instance, and BGP peering states." ∷ []

-- `doc` in commands/node/diags.go, with its lines cut apart.
unfoldable pub diags_lines : List String
diags_lines =
    "Usage:" ∷ "  calicoctl node diags [--log-dir=<LOG_DIR>]" ∷ "" ∷ "Options:"
    ∷ "  -h --help               Show this screen."
    ∷ "     --log-dir=<LOG_DIR>  The directory containing Calico logs."
    ∷ "                          [default: /var/log/calico]" ∷ "" ∷ "Description:"
    ∷ "  This command is used to gather diagnostic information from a Calico node."
    ∷ "  This is usually used when trying to diagnose an issue that may be related to"
    ∷ "  your Calico network." ∷ ""
    ∷ "  The output of the command explains how to automatically upload the"
    ∷ "  diagnostics to http://transfer.sh for easy sharing of the data. Note that the"
    ∷ "  uploaded files will be deleted after 14 days." ∷ ""
    ∷ "  This command must be run on the specific Calico node that you are gathering"
    ∷ "  diagnostics for." ∷ []

-- `doc` in commands/node/checksystem.go, with its lines cut apart.
unfoldable pub checksystem_lines : List String
checksystem_lines =
    "Usage: " ∷ "  calicoctl node checksystem" ∷ "" ∷ "Options:"
    ∷ "  -h --help                 Show this screen." ∷ "" ∷ "Description:"
    ∷ "  Check the compatibility of this compute host to run a Calico node instance." ∷ []
