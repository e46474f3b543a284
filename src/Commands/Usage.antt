-- ===== src/Commands/Usage.antt =====
-- The first lines of every command: docopt parses the arguments against the command's usage text.
-- docopt is not part of the program, so its answer is an argument.
pub mod Texts
pub mod Declared
pub mod Pattern
pub mod Follows
pub mod Given
use operations_calico_contai.Base.{String, ◌<>◌, List}
use operations_calico_contai.Base.Text.{join}
use operations_calico_contai.Base.Proc.{Proc, pure, exit, print, ◌>>◌}
use operations_calico_contai.Args.{Args}

-- An error, an empty map, or the parsed arguments.
pub data Parsed : Type 0 where
  invalid : Parsed
  nothing : Parsed
  parsed : Args → Parsed

unfoldable pub with_arguments :
    {S : Type 0} → List String → Parsed → (Args → Proc S (Unit {0})) → Proc S (Unit {0})
unfolding join
with_arguments argv invalid command = do
  print (
      "Invalid option: 'calicoctl "
      <> join argv " "
      <> "'. Use flag '--help' to read about a specific subcommand.\n")
  exit 1
with_arguments argv nothing command = pure tt
with_arguments argv (parsed args) command = command args
