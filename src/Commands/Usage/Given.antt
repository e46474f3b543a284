-- ===== src/Commands/Usage/Given.antt =====
-- What the usage texts of the commands on resources declare for the names that these commands read.
use mathlib.Core.Path.{subst}
use operations_calico_contai.Base.{String, ◌≡◌, ◌⊎◌, inl, inr, refl, some, none, List}
use operations_calico_contai.Base.Dict.{lookup}
use operations_calico_contai.Args.{Args, nil}
use operations_calico_contai.Args.Laws.{IsFlag, NamesResource, OfResources}
use operations_calico_contai.Commands.Usage.Texts.Intro.{datastore_intro}
use operations_calico_contai.Commands.Usage.Texts.Change.{apply_lines, create_lines, replace_lines}
use operations_calico_contai.Commands.Usage.Texts.Select.{delete_lines, get_lines}
use operations_calico_contai.Commands.Usage.Declared.{switch, optional, defaulted, declared}
use operations_calico_contai.Commands.Usage.Pattern.{element, either, Matches, pattern_of}
use operations_calico_contai.Commands.Usage.Follows.{Follows, has_kind, has_text}

-- The name is a switch of the command or not one of its names.
abbrev IsSwitch : List String → String → Type 0
IsSwitch lines name =
    (lookup name (declared lines) ≡ some switch) ⊎ (lookup name (declared lines) ≡ none)

-- The text declares the options that all of the commands have.
record DeclaresCommon (lines : List String) : Type 0 where
  filename : lookup "--filename" (declared lines) ≡ some optional
  config : lookup "--config" (declared lines) ≡ some defaulted
  skip_exists : IsSwitch lines "--skip-exists"
  skip_not_exists : IsSwitch lines "--skip-not-exists"

-- The text declares the name of a resource.
record DeclaresName (lines : List String) : Type 0 where
  kind : lookup "<KIND>" (declared lines) ≡ some optional
  name : lookup "<NAME>" (declared lines) ≡ some optional
  on_node : lookup "--node" (declared lines) ≡ some optional
  workload : lookup "--workload" (declared lines) ≡ some optional
  orchestrator : lookup "--orchestrator" (declared lines) ≡ some optional
  scope : lookup "--scope" (declared lines) ≡ some optional
  pattern : pattern_of lines ≡ either (element "<KIND>") (element "--filename")

module _ {args : Args} {lines : List String} (f : Follows args lines) where
  switch-IsFlag : (name : String) → IsSwitch lines name → IsFlag args name
  switch-IsFlag name (inl e) = inr (has_kind f name e)
  switch-IsFlag name (inr e) = inl (has_kind f name e)

  -- The pattern asks for a file.
  of_file : DeclaresCommon lines → pattern_of lines ≡ element "--filename" → OfResources args
  of_file d pattern = record {
    config = has_kind f "--config" d.config;
    skip_exists = switch-IsFlag "--skip-exists" d.skip_exists;
    skip_not_exists = switch-IsFlag "--skip-not-exists" d.skip_not_exists;
    source = inl (has_text f "--filename" d.filename (subst (Matches args) pattern f.matches));
  }

  named :
      DeclaresCommon lines
      → DeclaresName lines
      → args "--filename" ≡ nil
      → Matches args (either (element "<KIND>") (element "--filename"))
      → NamesResource args
  named d n absent (inr given) = absurd (given absent)
  named d n absent (inl given) = record {
    filename = absent;
    kind = has_text f "<KIND>" n.kind given;
    name = has_kind f "<NAME>" n.name;
    on_node = has_kind f "--node" n.on_node;
    workload = has_kind f "--workload" n.workload;
    orchestrator = has_kind f "--orchestrator" n.orchestrator;
    scope = has_kind f "--scope" n.scope;
    config = has_kind f "--config" d.config;
    skip_exists = switch-IsFlag "--skip-exists" d.skip_exists;
    skip_not_exists = switch-IsFlag "--skip-not-exists" d.skip_not_exists;
  }

  -- The pattern asks for a file or the name of a resource.
  of_file_or_name : DeclaresCommon lines → DeclaresName lines → OfResources args
  of_file_or_name d n = record {
    config = has_kind f "--config" d.config;
    skip_exists = switch-IsFlag "--skip-exists" d.skip_exists;
    skip_not_exists = switch-IsFlag "--skip-not-exists" d.skip_not_exists;
    source = elim (has_kind f "--filename" d.filename) [
      | inr file ↦ inl file
      | inl absent ↦ inr (named d n absent (subst (Matches args) n.pattern f.matches))
    ];
  }

pub apply-OfResources : {args : Args} → Follows args apply_lines → OfResources args
unfolding declared pattern_of lookup apply_lines datastore_intro
apply-OfResources f =
    of_file f
      (record {
        filename = refl;
        config = refl;
        skip_exists = inr refl;
        skip_not_exists = inr refl;
      })
      refl

pub create-OfResources : {args : Args} → Follows args create_lines → OfResources args
unfolding declared pattern_of lookup create_lines datastore_intro
create-OfResources f =
    of_file f
      (record {
        filename = refl;
        config = refl;
        skip_exists = inl refl;
        skip_not_exists = inr refl;
      })
      refl

pub replace-OfResources : {args : Args} → Follows args replace_lines → OfResources args
unfolding declared pattern_of lookup replace_lines datastore_intro
replace-OfResources f =
    of_file f
      (record {
        filename = refl;
        config = refl;
        skip_exists = inr refl;
        skip_not_exists = inr refl;
      })
      refl

delete-DeclaresName : DeclaresName delete_lines
unfolding declared pattern_of lookup delete_lines datastore_intro
delete-DeclaresName = record {
  kind = refl;
  name = refl;
  on_node = refl;
  workload = refl;
  orchestrator = refl;
  scope = refl;
  pattern = refl;
}

get-DeclaresName : DeclaresName get_lines
unfolding declared pattern_of lookup get_lines datastore_intro
get-DeclaresName = record {
  kind = refl;
  name = refl;
  on_node = refl;
  workload = refl;
  orchestrator = refl;
  scope = refl;
  pattern = refl;
}

pub delete-OfResources : {args : Args} → Follows args delete_lines → OfResources args
unfolding declared lookup delete_lines datastore_intro
delete-OfResources f =
    of_file_or_name f
      (record {
        filename = refl;
        config = refl;
        skip_exists = inr refl;
        skip_not_exists = inl refl;
      })
      delete-DeclaresName

pub get-OfResources : {args : Args} → Follows args get_lines → OfResources args
unfolding declared lookup get_lines datastore_intro
get-OfResources f =
    of_file_or_name f
      (record {
        filename = refl;
        config = refl;
        skip_exists = inr refl;
        skip_not_exists = inr refl;
      })
      get-DeclaresName
