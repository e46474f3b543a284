-- ===== src/Commands/Usage/Texts/Config.antt =====
-- calicoctl: the text of the configuration command.
use operations_calico_contai.Base.{String, List, [], ◌∷◌, ◌++◌}
use operations_calico_contai.Commands.Usage.Texts.Intro.{datastore_intro}

-- `doc` in commands/config.go, with its lines cut apart.
unfoldable pub config_lines : List String
unfolding datastore_intro
config_lines =
    datastore_intro
    ++ ("Usage:" ∷ "  calicoctl config set <NAME> <VALUE> [--node=<NODE>] [--config=<CONFIG>]"
        ∷ "  calicoctl config unset <NAME> [--node=<NODE>] [--config=<CONFIG>]"
        ∷ "  calicoctl config get <NAME> [--node=<NODE>] [--config=<CONFIG>]" ∷ "" ∷ "Examples:"
        ∷ "  # Turn off the full BGP node-to-node mesh"
        ∷ "  calicoctl config set nodeToNodeMesh off" ∷ "" ∷ "  # Set global log level to warning"
        ∷ "  calicoctl config set logLevel warning" ∷ ""
        ∷ "  # Set log level to info for node \"node1\""
        ∷ "  calicoctl config set logLevel info --node=node1" ∷ ""
        ∷ "  # Display the current setting for the nodeToNodeMesh"
        ∷ "  calicoctl config get nodeToNodeMesh" ∷ "" ∷ "Options:"
        ∷ "  -n --node=<NODE>      The node name."
        ∷ "  -c --config=<CONFIG>  Path to the file containing connection configuration in"
        ∷ "                        YAML or JSON format."
        ∷ "                        [default: /etc/calico/calicoctl.cfg]" ∷ "" ∷ "Description:" ∷ ""
        ∷ "These commands can be used to manage global system-wide configuration and some"
        ∷ "node-specific low level configuration." ∷ ""
        ∷ "The --node option is used to specify the node name for low-level configuration"
        ∷ "that is specific to a particular node." ∷ ""
        ∷ "For configuration that has both global values and node-specific values, the"
        ∷ "--node parameter is optional:  including the parameter will manage the"
        ∷ "node-specific value,  not including it will manage the global value.  For these"
        ∷ "options, if the node-specific value is unset, the global value will be used on"
        ∷ "the node." ∷ ""
        ∷ "For configuration that is only global, the --node option should not be"
        ∷ "included.  Unsetting the global value will return it to it's original default." ∷ ""
        ∷ "For configuration that is node-specific only, the --node option should be"
        ∷ "included.  Unsetting the node value will remove the configuration, and for"
        ∷ "supported configuration will then inherit the value from the global settings." ∷ ""
        ∷ "The table below details the valid config options." ∷ ""
        ∷ " Name            | Scope       | Value                                  |"
        ∷ "-----------------+-------------+----------------------------------------+"
        ∷ " logLevel        | global,node | none,debug,info,warning,error,critical |"
        ∷ " nodeToNodeMesh  | global      | on,off                                 |"
        ∷ " asNumber        | global      | 0-4294967295                           |"
        ∷ " ipip            | global      | on,off                                 |" ∷ [])
