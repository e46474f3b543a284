-- ===== src/Resources/Execute.antt =====
-- executeConfigCommand and executeResourceAction
pub mod Single
pub mod Loop
pub mod Results
pub mod Kinds
pub mod Actions
pub mod Total
pub mod FromFile
pub mod Listed
use operations_calico_contai.Base.{
  ℕ, zero, suc, ◌+◌, String, Bool, true, false, Option, none, some, List, [], ◌∷◌, ◌++◌, map,
  length, if◌then◌else◌,
}
use operations_calico_contai.Base.Dict.{Dict, lookup, insert}
use operations_calico_contai.Base.Result.{
  Error, Result, ok, err, already_exists, does_not_exist, other,
}
use operations_calico_contai.Base.Outcome
use operations_calico_contai.Base.Outcome.{Outcome, returned, panicked}
use operations_calico_contai.Base.Proc.{Proc, pure, lift, ◌>>=◌}
use operations_calico_contai.Args.{
  Args, Value, nil, text, flag, texts, number, must_string, arg_bool_or_false,
}
use operations_calico_contai.Platform.{Platform}
use operations_calico_contai.ClientManager.{new_client}
use operations_calico_contai.Manager.{
  Resource, struct, object, metadata_of, Command, ResourceHelper, get_resource_manager, run_command,
}
use operations_calico_contai.Manager.Registrations.{registered}
use operations_calico_contai.Manager.Files.{create_resources_from_file}
use operations_calico_contai.Resources.Convert.{slice_of, elements, convert_to_slice_of_resources}
use operations_calico_contai.Resources.Arguments.{get_resource_from_arguments}

pub data Action : Type 0 where
  action_apply action_create action_update action_delete action_list : Action

-- A missing count reads as 0.
abbrev pub get_count : Option ℕ → ℕ
get_count none = 0
get_count (some n) = n

abbrev pub is_one : ℕ → Bool
is_one (suc zero) = true
is_one _ = false

pub record CommandResults (p : Platform) : Type 0 where
  pub file_invalid : Bool
  pub num_resources : ℕ
  pub num_handled : ℕ
  pub err : Option Error
  pub single_kind : String
  -- A nil resource is `none`.
  pub resources : List (Option (Resource p.Object))

module _ (p : Platform) where
  abbrev pub no_results : CommandResults p
  no_results = record {
    file_invalid = false;
    num_resources = 0;
    num_handled = 0;
    err = none;
    single_kind = "";
    resources = [];
  }

  abbrev pub failed : Error → CommandResults p
  failed e = record no_results { err = some e }

  -- The switch on the action.
  unfoldable pub command_of : Action → ResourceHelper p → Option (Command p)
  command_of action_apply rm = rm.apply
  command_of action_create rm = rm.create
  command_of action_update rm = rm.update
  command_of action_delete rm = rm.delete
  command_of action_list rm = rm.list

  -- The switch on the type of the error.
  unfoldable pub skips : Args → Error → Outcome Bool
  skips args (already_exists _) = arg_bool_or_false args "--skip-exists"
  skips args (does_not_exist _) = arg_bool_or_false args "--skip-not-exists"
  skips args (other _) = returned false

  -- What executeResourceAction makes of the result of the action.
  unfoldable pub settle :
      Args
      → Resource p.Object
      → Result (Option (Resource p.Object))
      → Outcome (Result (Option (Resource p.Object)))
  unfolding skips
  settle args resource (Result.ok out) = returned (ok out)
  settle args resource (Result.err e) =
      Outcome.◌>>=◌ (skips args e)
        λ skip. returned (if skip then ok (some resource) else Result.err e)

  module _ (args : Args) (client : p.Client) (action : Action) where
    -- executeResourceAction
    unfoldable pub execute_resource_action :
        Resource p.Object → Proc p.Store (Result (Option (Resource p.Object)))
    unfolding get_resource_manager run_command command_of settle
    execute_resource_action resource = do
      let rm = get_resource_manager p (registered p) resource
      out ← run_command p (command_of action rm) client resource
      lift (settle args resource out)

    -- The loop over the resources, which ends at the first error.
    unfoldable pub execute_all :
        List (Resource p.Object) → CommandResults p → Proc p.Store (CommandResults p)
    unfolding execute_resource_action
    execute_all [] results = pure results
    execute_all (r ∷ rs) results = do
      out ← execute_resource_action r
      elim out [
        | err e ↦ pure (record results { err = some e })
        | ok x ↦ execute_all rs (record results {
          resources = results.resources ++ (x ∷ []);
          num_handled = results.num_handled + 1;
        })
      ]

  -- The loop that counts the resources, with its variables `kind`, `count` and `numResources`.
  unfoldable pub count_kinds : List (Resource p.Object) → String → Dict ℕ → ℕ → String × Dict ℕ × ℕ
  unfolding lookup insert
  count_kinds [] kind count num_resources = (kind, count, num_resources)
  count_kinds (r ∷ rs) _ count num_resources =
      let kind = (metadata_of p r).kind in
      count_kinds rs kind (insert kind (get_count (lookup kind count) + 1) count)
        (num_resources + 1)

  unfoldable pub initial_results : List (Resource p.Object) → CommandResults p
  unfolding count_kinds
  initial_results rs =
      let (kind, count, num_resources) = count_kinds rs "" [] 0 in
      record no_results {
        num_resources = num_resources;
        single_kind = if is_one (length count) then kind else "";
      }

  -- A step of executeConfigCommand that may return from it.
  pub data Step (A : Type 0) : Type 0 where
    return : CommandResults p → Step A
    go_on : A → Step A

  abbrev pub returns : {A : Type 0} → Result A → Step A
  returns (Result.ok a) = go_on a
  returns (Result.err e) = return (failed e)

  -- The resources of the file, or the one that the arguments name.
  unfoldable pub load_file : String → Outcome (Step (List (Resource p.Object)))
  load_file filename = elim (create_resources_from_file p (registered p) filename) [
    | err e ↦ returned (return (record (failed e) { file_invalid = true }))
    | ok r ↦
        Outcome.◌>>=◌ (convert_to_slice_of_resources p (slice_of (elements r)))
          λ resources. returned (go_on resources)
  ]

  unfoldable pub load_resources : Args → Outcome (Step (List (Resource p.Object)))
  unfolding load_file
  load_resources args = elim (args "--filename") [
    | nil ↦
        Outcome.◌>>=◌ (get_resource_from_arguments p args)
          λ r. returned (elim r [ err e ↦ return (failed e) | ok resource ↦ go_on (resource ∷ []) ])
    | text filename ↦ load_file filename
    | _ ↦ panicked
  ]

  -- The debug log, which may fail to encode the resources.
  unfoldable pub debug_log : List (Resource p.Object) → Option Error
  debug_log rs =
      if p.debug then elim (p.marshal (map object rs)) [ ok _ ↦ none | err e ↦ some e ] else none

  -- From the test on the number of resources to the connection.
  unfoldable pub prepare : Args → List (Resource p.Object) → Outcome (Step p.Client)
  prepare args [] = returned (return (failed (other "no resources specified")))
  prepare args (r ∷ rs) = elim (debug_log (r ∷ rs)) [
    | some e ↦ returned (return (failed e))
    | none ↦ Outcome.◌>>=◌ (must_string args "--config") λ cf. returned (returns (new_client p cf))
  ]

  -- executeConfigCommand
  unfoldable pub execute_config_command : Args → Action → Proc p.Store (CommandResults p)
  unfolding load_resources prepare initial_results execute_all
  execute_config_command args action = do
    loaded ← lift (load_resources args)
    elim loaded [
      | return results ↦ pure results
      | go_on resources ↦ do
        prepared ← lift (prepare args resources)
        elim prepared [
          | return results ↦ pure results
          | go_on client ↦ execute_all args client action resources (initial_results resources)
        ]
    ]
