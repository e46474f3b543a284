-- ===== src/Commands/Dispatch.antt =====
-- calicoctl/calicoctl.go, commands/node.go, commands/ipam.go and commands/version.go: the switches on the
-- name of the command.
pub mod Laws
pub mod Listed
use operations_calico_contai.Base.{
  String, ◌<>◌, Bool, true, false, Option, none, some, List, [], ◌∷◌, ◌++◌, ◌==◌, if◌then◌else◌,
}
use operations_calico_contai.Base.Text.{join}
use operations_calico_contai.Base.Proc.{Proc, pure, exit, panic, lift, print, println, ◌>>=◌, ◌>>◌}
use operations_calico_contai.Args.{Args, Value, nil, text, must_string, must_strings}
use operations_calico_contai.Args.Validate.{Parsers}
use operations_calico_contai.Platform.{Platform}
use operations_calico_contai.Commands.Usage.{Parsed, invalid, nothing, parsed, with_arguments}
use operations_calico_contai.Commands.Usage.Texts.{
  Usage, main_usage, apply_usage, create_usage, replace_usage, delete_usage, get_usage,
  config_usage, version_usage, ipam_usage, release_usage, show_usage, node_usage, status_usage,
  diags_usage, checksystem_usage, run_usage, usage_text,
}
use operations_calico_contai.Commands.Manage.{apply, create, replace, delete}
use operations_calico_contai.Commands.Config.{ConfigInterface, config}
use operations_calico_contai.Commands.Get.{Encoders, get}
use operations_calico_contai.Commands.Ipam.{IpamInterface, release, show}
use operations_calico_contai.Commands.Node.Host.{Host}
use operations_calico_contai.Commands.Node.Run.{run}
use operations_calico_contai.Commands.Node.Run.Validation.{Backend}
use operations_calico_contai.Commands.Node.Checksystem.{checksystem}
use operations_calico_contai.Commands.Node.Diags.{Collector, diags}
use operations_calico_contai.Commands.Node.Status.{Sockets, status}

-- Everything that the commands call: docopt, which parses arguments against a usage text, logrus's
-- ParseLevel, the versions that the build sets, and the parameters of the commands.
pub record Environment (p : Platform) : Type 1 where
  pub docopt : String → List String → Parsed
  pub is_level : String → Bool
  pub version : String
  pub build_date : String
  pub git_revision : String
  pub parsers : Parsers
  pub config_client : p.Client → ConfigInterface p.Store
  pub ipam_client : p.Client → IpamInterface p.Store parsers
  pub encoders : Encoders p
  pub host : Host p.Store
  pub backend : Backend p
  pub sockets : Sockets p.Store
  pub collector : Collector p.Store

-- `arguments, _ := docopt.Parse(doc, nil, ...)`: the error is not looked at, and a map that is nil has no
-- entries.
unfoldable pub arguments_of : Parsed → Args
arguments_of (parsed args) = args
arguments_of invalid = λ name. nil
arguments_of nothing = λ name. nil

module _ (p : Platform) (env : Environment p) where
  -- `docopt.Parse(doc, args, ...)`
  unfoldable pub parse_arguments : Usage → List String → Parsed
  parse_arguments u argv = env.docopt (usage_text env.version u) argv

  unfoldable pub show_version : Args → Proc p.Store (Unit {0})
  show_version args = do
    println ("Version:      " <> env.version)
    println ("Build date:   " <> env.build_date)
    println ("Git commit:   " <> env.git_revision)

  -- Version
  unfoldable pub version_command : List String → Proc p.Store (Unit {0})
  unfolding with_arguments show_version parse_arguments
  version_command argv = with_arguments argv (parse_arguments version_usage argv) show_version

  -- `arguments[name]`, and the arguments of the command, which docopt gives with it. The command that
  -- is named gets the words in front, its own name and the arguments.
  unfoldable pub with_command :
      List String
      → Args
      → (String → List String → Proc p.Store (Unit {0}))
      → Proc p.Store (Unit {0})
  unfolding must_string must_strings
  with_command front args run_it = elim (args "<command>") [
    | nil ↦ pure tt
    | _ ↦ do
      command ← lift (must_string args "<command>")
      rest ← lift (must_strings args "<args>")
      run_it command (front ++ (command ∷ rest))
  ]

  -- The first lines of Node and of IPAM, for which an empty map is a map without a command.
  unfoldable pub group :
      String
      → Usage
      → List String
      → (String → List String → Proc p.Store (Unit {0}))
      → Proc p.Store (Unit {0})
  unfolding with_command join parse_arguments
  group name usage argv run_it = elim (parse_arguments usage argv) [
    | invalid ↦ do
      print (
          "Invalid option: 'calicoctl "
          <> join argv " "
          <> "'. Use flag '--help' to read about a specific subcommand.\n")
      exit 1
    | nothing ↦ pure tt
    | parsed args ↦ with_command (name ∷ []) args run_it
  ]

  -- The switch of Node.
  unfoldable pub node_command : String → List String → Proc p.Store (Unit {0})
  unfolding status diags checksystem run parse_arguments
  node_command command argv =
      if command == "status"
      then status env.sockets env.host argv (parse_arguments status_usage argv)
      else if command == "diags"
      then diags env.host env.collector argv (parse_arguments diags_usage argv)
      else if command == "checksystem"
      then checksystem env.host argv (parse_arguments checksystem_usage argv)
      else if command == "run"
      then run p env.parsers env.host env.backend argv (parse_arguments run_usage argv)
      else println (usage_text env.version node_usage)

  -- The switch of IPAM.
  unfoldable pub ipam_command : String → List String → Proc p.Store (Unit {0})
  unfolding release show parse_arguments
  ipam_command command argv =
      if command == "release"
      then release p env.parsers env.ipam_client argv (parse_arguments release_usage argv)
      else if command == "show"
      then show p env.parsers env.ipam_client argv (parse_arguments show_usage argv)
      else println (usage_text env.version ipam_usage)

  -- The switch of main.
  unfoldable pub main_command : String → List String → Proc p.Store (Unit {0})
  unfolding create replace apply delete get version_command group node_command ipam_command config
      parse_arguments
  main_command command argv =
      if command == "create"
      then create p argv (parse_arguments create_usage argv)
      else if command == "replace"
      then replace p argv (parse_arguments replace_usage argv)
      else if command == "apply"
      then apply p argv (parse_arguments apply_usage argv)
      else if command == "delete"
      then delete p argv (parse_arguments delete_usage argv)
      else if command == "get"
      then get p env.encoders argv (parse_arguments get_usage argv)
      else if command == "version"
      then version_command argv
      else if command == "node"
      then group "node" node_usage argv node_command
      else if command == "ipam"
      then group "ipam" ipam_usage argv ipam_command
      else if command == "config"
      then config p env.config_client argv (parse_arguments config_usage argv)
      else println (usage_text env.version main_usage)

  -- The test of `--log-level`.
  unfoldable pub check_level : Args → Proc p.Store (Unit {0})
  unfolding must_string
  check_level args = elim (args "--log-level") [
    | nil ↦ pure tt
    | _ ↦ do
      level ← lift (must_string args "--log-level")
      (if env.is_level level then pure tt else (do
        print (
            "Unknown log level: " <> level
            <> ", expected one of: \npanic, fatal, error, warn, info, debug.\n")
        exit 1))
  ]

  -- main, from what docopt has parsed.
  unfoldable pub main : Args → Proc p.Store (Unit {0})
  unfolding check_level with_command main_command
  main args = do check_level args; with_command [] args main_command

  -- main, on the words of the command line, which docopt reads.
  unfoldable pub calicoctl : List String → Proc p.Store (Unit {0})
  unfolding main arguments_of parse_arguments
  calicoctl argv = main (arguments_of (parse_arguments main_usage argv))
