-- ===== src/Commands/Usage/Texts.antt =====
-- calicoctl: the usage text of every command, which docopt reads and which says how the command is
-- called.
pub mod Intro
pub mod Main
pub mod Change
pub mod Select
pub mod Config
pub mod Ipam
pub mod Node
pub mod Run
use operations_calico_contai.Base.{String, ◌<>◌, List, [], ◌∷◌}
use operations_calico_contai.Commands.Usage.Texts.Main.{main_lines, version_lines}
use operations_calico_contai.Commands.Usage.Texts.Change.{apply_lines, create_lines, replace_lines}
use operations_calico_contai.Commands.Usage.Texts.Select.{delete_lines, get_lines}
use operations_calico_contai.Commands.Usage.Texts.Config.{config_lines}
use operations_calico_contai.Commands.Usage.Texts.Ipam.{ipam_lines, release_lines, show_lines}
use operations_calico_contai.Commands.Usage.Texts.Node.{
  node_lines, status_lines, diags_lines, checksystem_lines,
}
use operations_calico_contai.Commands.Usage.Texts.Run.{run_lines}

-- The commands that have a usage text of their own.
pub data Usage : Type 0 where
  main_usage apply_usage create_usage replace_usage delete_usage get_usage config_usage : Usage
  version_usage ipam_usage release_usage show_usage : Usage
  node_usage status_usage diags_usage checksystem_usage run_usage : Usage

-- The lines of the text. That of `node run` has the version that the build sets.
unfoldable pub usage_lines : String → Usage → List String
usage_lines version main_usage = main_lines
usage_lines version apply_usage = apply_lines
usage_lines version create_usage = create_lines
usage_lines version replace_usage = replace_lines
usage_lines version delete_usage = delete_lines
usage_lines version get_usage = get_lines
usage_lines version config_usage = config_lines
usage_lines version version_usage = version_lines
usage_lines version ipam_usage = ipam_lines
usage_lines version release_usage = release_lines
usage_lines version show_usage = show_lines
usage_lines version node_usage = node_lines
usage_lines version status_usage = status_lines
usage_lines version diags_usage = diags_lines
usage_lines version checksystem_usage = checksystem_lines
usage_lines version run_usage = run_lines version

-- Each line ends with a line break.
unfoldable pub unlines : List String → String
unlines [] = ""
unlines (line ∷ lines) = line <> ("\n" <> unlines lines)

-- `doc`
unfoldable pub usage_text : String → Usage → String
unfolding usage_lines unlines
usage_text version u = unlines (usage_lines version u)
