-- ===== src/Commands/Usage/Texts/Run.antt =====
-- calicoctl: the text of node run.
use operations_calico_contai.Base.{String, List, [], ◌∷◌}
use operations_calico_contai.Base.Text.Format.{format_string}

-- `doc` in commands/node/run.go, with its lines cut apart.
unfoldable pub run_lines : String → List String
unfolding format_string
run_lines version =
    "Usage:"
    ∷ "  calicoctl node run [--ip=<IP>] [--ip6=<IP6>] [--as=<AS_NUM>]"
    ∷ "                     [--name=<NAME>]"
    ∷ "                     [--log-dir=<LOG_DIR>]"
    ∷ "                     [--node-image=<DOCKER_IMAGE_NAME>]"
    ∷ "                     [--backend=(bird|gobgp|none)]"
    ∷ "                     [--config=<CONFIG>]"
    ∷ "                     [--no-default-ippools]"
    ∷ "                     [--dryrun]"
    ∷ ""
    ∷ "Options:"
    ∷ "  -h --help                Show this screen."
    ∷ "     --as=<AS_NUM>         The default AS number for this node.  If this is not"
    ∷ "                           specified, the node will use the global AS number"
    ∷ "                           (see 'calicoctl config' for details)."
    ∷ "     --name=<NAME>         The name of the Calico node.  If this is not"
    ∷ "                           supplied it defaults to the host name."
    ∷ "     --ip=<IP>             The local management address to use.  If this is not"
    ∷ "                           specified, the node will attempt to auto-discover"
    ∷ "                           the local IP address to use - however, it is"
    ∷ "                           recommended to specify the required address to use."
    ∷ "     --ip6=<IP6>           The local IPv6 management address to use.  If this"
    ∷ "                           is not specified, the node will not route IPv6."
    ∷ "     --log-dir=<LOG_DIR>   The directory containing Calico logs."
    ∷ "                           [default: /var/log/calico]"
    ∷ "     --node-image=<DOCKER_IMAGE_NAME>"
    ∷ "                           Docker image to use for Calico's per-node container."
    ∷ format_string "                           [default: calico/node:%s]" version
    ∷ "     --backend=(bird|gobgp|none)"
    ∷ "                           Specify which networking backend to use.  When set"
    ∷ "                           to \"none\", Calico node runs in policy only mode."
    ∷ "                           The option to run with gobgp is currently"
    ∷ "                           experimental."
    ∷ "                           [default: bird]"
    ∷ "     --dryrun              Output the appropriate Docker command, without"
    ∷ "                           starting the container."
    ∷ "     --no-default-ippools  Do not create default pools upon startup."
    ∷ "                           Default IP pools will be created if this is not set"
    ∷ "                           and there are no pre-existing Calico IP pools."
    ∷ "  -c --config=<CONFIG>     Path to the file containing connection"
    ∷ "                           configuration in YAML or JSON format."
    ∷ "                           [default: /etc/calico/calicoctl.cfg]"
    ∷ ""
    ∷ "Description:"
    ∷ "  This command is used to start a calico/node container instance which provides"
    ∷ "  Calico networking and network policy on your compute host."
    ∷ []
