-- ===== src/Commands/Usage/Texts/Ipam.antt =====
-- calicoctl: the texts of the commands on addresses.
use operations_calico_contai.Base.{String, List, [], ◌∷◌, ◌++◌}
use operations_calico_contai.Commands.Usage.Texts.Intro.{datastore_intro}

-- `doc` in commands/ipam.go, with its lines cut apart.
unfoldable pub ipam_lines : List String
unfolding datastore_intro
ipam_lines =
    datastore_intro
    ++ ("Usage:" ∷ "  calicoctl ipam <command> [<args>...]" ∷ ""
        ∷ "    release      Release a Calico assigned IP address."
        ∷ "    show         Show details of a Calico assigned IP address." ∷ "" ∷ "Options:"
        ∷ "  -h --help      Show this screen." ∷ "" ∷ "Description:"
        ∷ "  IP Address Management specific commands for calicoctl." ∷ ""
        ∷ "  See 'calicoctl ipam <command> --help' to read about a specific subcommand." ∷ [])

-- `doc` in commands/ipam/release.go, with its lines cut apart.
unfoldable pub release_lines : List String
unfolding datastore_intro
release_lines =
    datastore_intro
    ++ ("Usage:" ∷ "  calicoctl ipam release --ip=<IP> [--config=<CONFIG>]" ∷ "" ∷ "Options:"
        ∷ "  -h --help             Show this screen."
        ∷ "     --ip=<IP>          IP address to release."
        ∷ "  -c --config=<CONFIG>  Path to the file containing connection configuration in"
        ∷ "                        YAML or JSON format."
        ∷ "                        [default: /etc/calico/calicoctl.cfg]" ∷ "" ∷ "Description:"
        ∷ "  The ipam release command releases an IP address from the Calico IP Address"
        ∷ "  Manager that was been previously assigned to an endpoint.  When an IP address"
        ∷ "  is released, it becomes available for assignment to any endpoint." ∷ ""
        ∷ "  Note that this does not remove the IP from any existing endpoints that may be"
        ∷ "  using it, so only use this command to clean up addresses from endpoints that"
        ∷ "  were not cleanly removed from Calico." ∷ [])

-- `doc` in commands/ipam/show.go, with its lines cut apart.
unfoldable pub show_lines : List String
unfolding datastore_intro
show_lines =
    datastore_intro
    ++ ("Usage:" ∷ "  calicoctl ipam show --ip=<IP> [--config=<CONFIG>]" ∷ "" ∷ "Options:"
        ∷ "  -h --help             Show this screen."
        ∷ "     --ip=<IP>          IP address to show."
        ∷ "  -c --config=<CONFIG>  Path to the file containing connection configuration in"
        ∷ "                        YAML or JSON format."
        ∷ "                        [default: /etc/calico/calicoctl.cfg]" ∷ "" ∷ "Description:"
        ∷ "  The ipam show command prints information about a given IP address, such as"
        ∷ "  special attributes defined for the IP or whether the IP has been reserved by"
        ∷ "  a user of the Calico IP Address Manager." ∷ [])
