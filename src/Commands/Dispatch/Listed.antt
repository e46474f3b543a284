-- ===== src/Commands/Dispatch/Listed.antt =====
-- The commands that a usage text lists, and those that the switches know.
use Prim.Native.Char.{code}
use mathlib.Core.Path.{subst}
use operations_calico_contai.Base.{
  String, ◌≡◌, refl, Bool, false, not, some, none, List, [], ◌∷◌, contains, All, arith, eq_iff,
  ◌==◌, if◌then◌else◌,
}
use operations_calico_contai.Base.Text.{after_prefix, is_space_code}
use operations_calico_contai.Base.Text.Split.{fields}
use operations_calico_contai.Base.Proc.{World, println}
use operations_calico_contai.Platform.{Platform}
use operations_calico_contai.Commands.Usage.Texts.{main_usage, node_usage, ipam_usage, usage_text}
use operations_calico_contai.Commands.Usage.Texts.Intro.{datastore_intro}
use operations_calico_contai.Commands.Usage.Texts.Main.{main_lines}
use operations_calico_contai.Commands.Usage.Texts.Ipam.{ipam_lines}
use operations_calico_contai.Commands.Usage.Texts.Node.{node_lines}
use operations_calico_contai.Commands.Dispatch.{
  Environment, main_command, node_command, ipam_command,
}

-- A line that is indented by four spaces, and no more, begins with the name of a command.
starts_word : String → Bool
starts_word String.[] = false
starts_word (String.◌∷◌ c s) = not (is_space_code (code c))

lists_command : String → Bool
unfolding after_prefix starts_word
lists_command line = elim (after_prefix "    " line) [ none ↦ false | some rest ↦ starts_word rest ]

first_word : List String → String
first_word [] = ""
first_word (word ∷ words) = word

unfoldable pub listed_commands : List String → List String
unfolding lists_command fields first_word
listed_commands [] = []
listed_commands (line ∷ lines) =
    let rest = listed_commands lines in
    if lists_command line then first_word (fields line) ∷ rest else rest

main_commands :
    listed_commands main_lines
    ≡ "create" ∷ "replace" ∷ "apply" ∷ "delete" ∷ "get" ∷ "config" ∷ "ipam" ∷ "node" ∷ "version"
      ∷ []
unfolding listed_commands main_lines
main_commands = refl

node_commands : listed_commands node_lines ≡ "run" ∷ "status" ∷ "diags" ∷ "checksystem" ∷ []
unfolding listed_commands node_lines datastore_intro
node_commands = refl

ipam_commands : listed_commands ipam_lines ≡ "release" ∷ "show" ∷ []
unfolding listed_commands ipam_lines datastore_intro
ipam_commands = refl

-- The text is none of those.
abbrev NoneOf : List String → String → Type 0
NoneOf names s = All (λ name. (s == name) ≡ false) names

contains-NoneOf : (names : List String) (s : String) → contains names s ≡ false → NoneOf names s
contains-NoneOf [] s h = tt
contains-NoneOf (name ∷ names) s h =
    (ground (arith, eq_iff name s, eq_iff s name), contains-NoneOf names s (ground arith))

unlisted :
    (lines : List String) (s : String) {names : List String}
    → listed_commands lines ≡ names
    → contains (listed_commands lines) s ≡ false
    → NoneOf names s
unlisted lines s e h =
    subst (λ names. NoneOf names s) e (contains-NoneOf (listed_commands lines) s h)

module _ (p : Platform) (env : Environment p) (command : String) (argv : List String)
    (w : World p.Store) where
  node_command-unlisted :
      contains (listed_commands node_lines) command ≡ false
      → node_command p env command argv w ≡ println (usage_text env.version node_usage) w
  unfolding node_command
  node_command-unlisted h =
      let (no_run, (no_status, (no_diags, (no_checksystem, _)))) =
        unlisted node_lines command node_commands h in
      rw (no_run, no_status, no_diags, no_checksystem, node_command) refl

  ipam_command-unlisted :
      contains (listed_commands ipam_lines) command ≡ false
      → ipam_command p env command argv w ≡ println (usage_text env.version ipam_usage) w
  unfolding ipam_command
  ipam_command-unlisted h =
      let (no_release, (no_show, _)) = unlisted ipam_lines command ipam_commands h in
      rw (no_release, no_show, ipam_command) refl

  -- A command that the usage text of calicoctl does not list prints that text, and does nothing else.
  pub main_command-unlisted :
      contains (listed_commands main_lines) command ≡ false
      → main_command p env command argv w ≡ println (usage_text env.version main_usage) w
  unfolding main_command
  main_command-unlisted h =
      let (
        no_create,
        (
          no_replace,
          (no_apply, (no_delete, (no_get, (no_config, (no_ipam, (no_node, (no_version, _))))))),
        ),
      ) =
        unlisted main_lines command main_commands h in
      rw
        (
          no_create, no_replace, no_apply, no_delete, no_get, no_config, no_ipam, no_node,
          no_version, main_command,
        )
        refl
