-- ===== src/Commands/Usage/Texts/Main.antt =====
-- calicoctl: the texts of calicoctl itself and of its version command.
use operations_calico_contai.Base.{String, List, [], ◌∷◌}

-- `doc` in calicoctl.go, with its lines cut apart.
unfoldable pub main_lines : List String
main_lines =
    "Usage:" ∷ "  calicoctl [options] <command> [<args>...]" ∷ ""
    ∷ "    create    Create a resource by filename or stdin."
    ∷ "    replace   Replace a resource by filename or stdin."
    ∷ "    apply     Apply a resource by filename or stdin.  This creates a resource"
    ∷ "              if it does not exist, and replaces a resource if it does exists."
    ∷ "    delete    Delete a resource identified by file, stdin or resource type and"
    ∷ "              name."
    ∷ "    get       Get a resource identified by file, stdin or resource type and"
    ∷ "              name."
    ∷ "    config    Manage system-wide and low-level node configuration options."
    ∷ "    ipam      IP address management." ∷ "    node      Calico node management."
    ∷ "    version   Display the version of calicoctl." ∷ "" ∷ "Options:"
    ∷ "  -h --help               Show this screen."
    ∷ "  -l --log-level=<level>  Set the log level (one of panic, fatal, error,"
    ∷ "                          warn, info, debug) [default: panic]" ∷ "" ∷ "Description:"
    ∷ "  The calicoctl command line tool is used to manage Calico network and security"
    ∷ "  policy, to view and manage endpoint configuration, and to manage a Calico"
    ∷ "  node instance." ∷ ""
    ∷ "  See 'calicoctl <command> --help' to read about a specific subcommand." ∷ []

-- `doc` in commands/version.go, with its lines cut apart.
unfoldable pub version_lines : List String
version_lines =
    "Usage:" ∷ "  calicoctl version" ∷ "" ∷ "Options:" ∷ "  -h --help   Show this screen." ∷ ""
    ∷ "Description:" ∷ "  Display the version of calicoctl." ∷ []
