-- ===== src/Commands/Ends/Commands.antt =====
-- The commands of calicoctl, under what they rely on in the code that they call.
use operations_calico_contai.Base.{String, ◌≡◌, ◌≢◌, refl, true, none, List, All}
use operations_calico_contai.Base.Dict.{lookup}
use operations_calico_contai.Base.Text.Split.{split_lines}
use operations_calico_contai.Base.Proc.Ends.{Ends, EndsWell}
use operations_calico_contai.Args.{Args, must_string}
use operations_calico_contai.Args.Reads.{must_string-Ends}
use operations_calico_contai.Platform.{Platform}
use operations_calico_contai.Resources.Execute.{
  action_apply, action_create, action_update, action_delete,
}
use operations_calico_contai.Resources.Execute.Listed.{Lists}
use operations_calico_contai.Commands.Usage.{Parsed, parsed}
use operations_calico_contai.Commands.Usage.Texts.{
  Usage, apply_usage, create_usage, replace_usage, delete_usage, get_usage, config_usage,
  version_usage, release_usage, show_usage, status_usage, diags_usage, checksystem_usage, run_usage,
  usage_lines, usage_text,
}
use operations_calico_contai.Commands.Usage.Texts.Intro.{datastore_intro}
use operations_calico_contai.Commands.Usage.Texts.Select.{get_lines}
use operations_calico_contai.Commands.Usage.Declared.{declared}
use operations_calico_contai.Commands.Usage.Follows.{Follows, has_kind}
use operations_calico_contai.Commands.Usage.Given.{
  apply-OfResources, create-OfResources, replace-OfResources, delete-OfResources, get-OfResources,
}
use operations_calico_contai.Commands.Manage.{apply, create, replace, delete}
use operations_calico_contai.Commands.Config.{config}
use operations_calico_contai.Commands.Get.{get}
use operations_calico_contai.Commands.Ipam.{release, show}
use operations_calico_contai.Commands.Node.Run.{run}
use operations_calico_contai.Commands.Node.Checksystem.{checksystem}
use operations_calico_contai.Commands.Node.Diags.{diags}
use operations_calico_contai.Commands.Node.Status.{status}
use operations_calico_contai.Commands.Dispatch.{
  Environment, parse_arguments, version_command, show_version,
}
use operations_calico_contai.Commands.Ends.Resources.{
  IsTyped, with_arguments-EndsWell, manage-EndsWell,
}
use operations_calico_contai.Commands.Ends.Get.{ExecutesTables, get_resources-EndsWell}
use operations_calico_contai.Commands.Ends.Config.{configure-EndsWell_for}
use operations_calico_contai.Commands.Ends.Ipam.{release_ip-EndsWell_for, show_ip-EndsWell_for}
use operations_calico_contai.Commands.Ends.Node.{run_node-EndsWell}
use operations_calico_contai.Commands.Ends.Checksystem.{check_system-EndsWell}
use operations_calico_contai.Commands.Ends.Diags.{collect_for-EndsWell}
use operations_calico_contai.Commands.Ends.Status.{IsTableLine, show_status-EndsWell}

-- What the commands rely on in the code that they call.
pub record Promises (p : Platform) (env : Environment p) : Type 0 where
  -- The API and its decoder give structs their types.
  pub typed : IsTyped p
  -- The client lists structs of the kinds, or lists of such.
  pub lists : Lists p
  -- The templates that are built for the tables are well formed and print without an error.
  pub tables : ExecutesTables p env.encoders
  -- A configuration whose backend is etcd has etcd's part.
  pub etcd :
      (cfg : p.ClientConfig) → env.backend.is_etcd cfg ≡ true → env.backend.etcd_config cfg ≢ none
  -- A line of BIRD's answer that names a peer has all its columns.
  pub bird :
      (c : env.sockets.Conn) (s : p.Store)
      → All IsTableLine (split_lines (env.sockets.read c s).0.0)
  -- The arguments that docopt gives follow the usage text that it has read.
  pub docopt :
      (u : Usage) (argv : List String) (args : Args)
      → env.docopt (usage_text env.version u) argv ≡ parsed args
      → Follows args (usage_lines env.version u)

module _ (p : Platform) (env : Environment p) (h : Promises p env) where
  answers :
      (u : Usage) (argv : List String) (args : Args)
      → parse_arguments p env u argv ≡ parsed args
      → Follows args (usage_lines env.version u)
  unfolding parse_arguments
  answers u argv args e = h.docopt u argv args e

  abbrev answer : Usage → List String → Parsed
  answer u argv = parse_arguments p env u argv

  pub apply-EndsWell : (argv : List String) → EndsWell (apply p argv (answer apply_usage argv))
  unfolding apply usage_lines
  apply-EndsWell argv = with_arguments-EndsWell argv (answer apply_usage argv) _ λ args e.
      manage-EndsWell p h.typed action_apply _ args
        (apply-OfResources (answers apply_usage argv args e))

  pub create-EndsWell : (argv : List String) → EndsWell (create p argv (answer create_usage argv))
  unfolding create usage_lines
  create-EndsWell argv = with_arguments-EndsWell argv (answer create_usage argv) _ λ args e.
      manage-EndsWell p h.typed action_create _ args
        (create-OfResources (answers create_usage argv args e))

  pub replace-EndsWell :
      (argv : List String) → EndsWell (replace p argv (answer replace_usage argv))
  unfolding replace usage_lines
  replace-EndsWell argv = with_arguments-EndsWell argv (answer replace_usage argv) _ λ args e.
      manage-EndsWell p h.typed action_update _ args
        (replace-OfResources (answers replace_usage argv args e))

  pub delete-EndsWell : (argv : List String) → EndsWell (delete p argv (answer delete_usage argv))
  unfolding delete usage_lines
  delete-EndsWell argv = with_arguments-EndsWell argv (answer delete_usage argv) _ λ args e.
      manage-EndsWell p h.typed action_delete _ args
        (delete-OfResources (answers delete_usage argv args e))

  output-Ends : (args : Args) → Follows args get_lines → Ends (must_string args "--output")
  unfolding declared lookup get_lines datastore_intro
  output-Ends args f = must_string-Ends args "--output" (has_kind f "--output" refl)

  pub get-EndsWell :
      (argv : List String) → EndsWell (get p env.encoders argv (answer get_usage argv))
  unfolding get usage_lines
  get-EndsWell argv = with_arguments-EndsWell argv (answer get_usage argv) _ λ args e.
      get_resources-EndsWell p env.encoders h.tables h.typed h.lists args
        (get-OfResources (answers get_usage argv args e))
        (output-Ends args (answers get_usage argv args e))

  pub config-EndsWell :
      (argv : List String) → EndsWell (config p env.config_client argv (answer config_usage argv))
  unfolding config usage_lines
  config-EndsWell argv =
      with_arguments-EndsWell argv (answer config_usage argv) _
        λ args e. configure-EndsWell_for p env.config_client args (answers config_usage argv args e)

  pub release-EndsWell :
      (argv : List String)
      → EndsWell (release p env.parsers env.ipam_client argv (answer release_usage argv))
  unfolding release usage_lines
  release-EndsWell argv = with_arguments-EndsWell argv (answer release_usage argv) _ λ args e.
      release_ip-EndsWell_for p env.parsers env.ipam_client args (answers release_usage argv args e)

  pub show-EndsWell :
      (argv : List String)
      → EndsWell (show p env.parsers env.ipam_client argv (answer show_usage argv))
  unfolding show usage_lines
  show-EndsWell argv = with_arguments-EndsWell argv (answer show_usage argv) _ λ args e.
      show_ip-EndsWell_for p env.parsers env.ipam_client args (answers show_usage argv args e)

  pub run-EndsWell :
      (argv : List String)
      → EndsWell (run p env.parsers env.host env.backend argv (answer run_usage argv))
  unfolding run usage_lines
  run-EndsWell argv = with_arguments-EndsWell argv (answer run_usage argv) _ λ args e.
      run_node-EndsWell p env.parsers env.host env.backend args env.version h.etcd
        (answers run_usage argv args e)

  pub checksystem-EndsWell :
      (argv : List String) → EndsWell (checksystem env.host argv (answer checksystem_usage argv))
  unfolding checksystem usage_lines
  checksystem-EndsWell argv =
      with_arguments-EndsWell argv (answer checksystem_usage argv) _
        λ args e. check_system-EndsWell env.host

  pub diags-EndsWell :
      (argv : List String) → EndsWell (diags env.host env.collector argv (answer diags_usage argv))
  unfolding diags usage_lines
  diags-EndsWell argv =
      with_arguments-EndsWell argv (answer diags_usage argv) _
        λ args e. collect_for-EndsWell env.host env.collector args (answers diags_usage argv args e)

  pub status-EndsWell :
      (argv : List String) → EndsWell (status env.sockets env.host argv (answer status_usage argv))
  unfolding status usage_lines
  status-EndsWell argv =
      with_arguments-EndsWell argv (answer status_usage argv) _
        λ args e. show_status-EndsWell env.sockets h.bird env.host

  pub version-EndsWell : (argv : List String) → EndsWell (version_command p env argv)
  unfolding version_command show_version
  version-EndsWell argv = with_arguments-EndsWell argv (answer version_usage argv) _ λ args e w. tt
