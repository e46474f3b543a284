-- ===== src/Commands/Node/Run.antt =====
-- calicoctl/commands/node/run.go: the command that starts the container of the node.
pub mod Validation
pub mod Effects
pub mod Laws
use operations_calico_contai.Base.{
  String, ◌<>◌, Bool, true, false, Option, none, some, List, if◌then◌else◌,
}
use operations_calico_contai.Base.Text.{join}
use operations_calico_contai.Base.Result.{message}
use operations_calico_contai.Base.Proc.{Proc, pure, exit, lift, call, print, println, ◌>>=◌, ◌>>◌}
use operations_calico_contai.Args.{Args}
use operations_calico_contai.Args.Validate.{Parsers}
use operations_calico_contai.Platform.{Platform}
use operations_calico_contai.Commands.Usage.{Parsed, with_arguments}
use operations_calico_contai.Commands.Node.Host.{Host, enforce_root}
use operations_calico_contai.Commands.Node.Run.Validation.{
  Settings, Backend, read_settings, validate, node_name, load_etcd,
}
use operations_calico_contai.Commands.Node.Docker.{docker_command}
use operations_calico_contai.Commands.Node.Run.Effects.{running_in_container, prepare_kernel}

module _ (p : Platform) (n : Parsers) (h : Host p.Store) (backend : Backend p) where
  -- "Run the docker command."
  unfoldable pub launch : List String → Proc p.Store (Unit {0})
  unfolding join
  launch cmd = do
    println "Running the following command:"
    print ("\n" <> join cmd " " <> "\n\n")
    failure ← call (h.run cmd)
    elim failure [
      | none ↦ pure tt
      | some e ↦ do println "Error executing command:"; println (message e); exit 1
    ]

  -- The part after the command has been put together.
  unfoldable pub start : Bool → List String → Proc p.Store (Unit {0})
  unfolding enforce_root running_in_container prepare_kernel join launch
  start true cmd = do
    println "Use the following command to run Calico node:"
    print ("\n" <> join cmd " " <> "\n\n")
    println "If you intend to run Calico node in an init system, such as systemd, remove"
    println "the -d option so that the commands does not detach from the process."
  start false cmd = do
    enforce_root h
    (if running_in_container h then pure tt else prepare_kernel h)
    launch cmd

  unfoldable pub run_node : Args → Proc p.Store (Unit {0})
  unfolding read_settings validate node_name load_etcd docker_command start
  run_node args = do
    settings ← lift (read_settings args)
    validate n settings
    name ← node_name h settings
    etcd ← load_etcd p backend settings
    start settings.dryrun (docker_command h settings name etcd)

  -- Run
  unfoldable pub run : List String → Parsed → Proc p.Store (Unit {0})
  unfolding with_arguments run_node
  run argv answer = with_arguments argv answer run_node
