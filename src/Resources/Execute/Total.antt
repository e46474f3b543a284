-- ===== src/Resources/Execute/Total.antt =====
-- executeConfigCommand: the cases in which a command on resources returns.
use operations_calico_contai.Base.{
  String, ◌≡◌, ◌∙◌, refl, inl, inr, Option, List, [], ◌∷◌, All, Option-cases,
}
use operations_calico_contai.Base.Result.{Result, ok, err}
use operations_calico_contai.Base.Outcome.{Outcome, returned, exited, panicked}
use operations_calico_contai.Base.Proc.{World}
use operations_calico_contai.Args.{Args, text}
use operations_calico_contai.Args.Laws.{
  NamesResource, IsFlag, must_string-text, text_or_blank, arg_string_or_blank-eq,
}
use operations_calico_contai.Platform.{
  Platform, ResourceKind, element, HasConstructors, HasFields, element_metadata,
}
use operations_calico_contai.ClientManager.{new_client}
use operations_calico_contai.Manager.{Resource, struct}
use operations_calico_contai.Resources.Arguments.{
  Identifiers, resource_for, get_resource_from_arguments,
}
use operations_calico_contai.Resources.Arguments.Laws.{resource_for-IsOf}
use operations_calico_contai.Resources.Execute.{
  Action, CommandResults, failed, returns, Step, return, go_on, settle, execute_resource_action,
  execute_all, load_resources, debug_log, prepare, initial_results, execute_config_command,
}
use operations_calico_contai.Resources.Execute.Actions.{
  client_call, execute_resource_action-element, settle-err,
}

module _ (p : Platform) where
  -- The outcome is a return.
  abbrev pub Returns : {A : Type 0} → Outcome A × World p.Store → Type 0
  Returns (returned a, w) = Unit {0}
  Returns (exited n, w) = ⊥
  Returns (panicked, w) = ⊥

  abbrev pub IsElement : Resource p.Object → Type 0
  IsElement r =
      (k : ResourceKind) × (o : p.Object) × (r ≡ struct o)
      × (p.type_metadata o ≡ element_metadata k)
      × (p.struct_type o ≡ element k)

  module _ (c : HasConstructors p) (args : Args) (client : p.Client) (action : Action) where
    settled :
        (r : Resource p.Object) (out : Result (Option (Resource p.Object)))
        → IsFlag args "--skip-exists"
        → IsFlag args "--skip-not-exists"
        → (x : Result (Option (Resource p.Object))) × (settle p args r out ≡ returned x)
    unfolding settle
    settled r (ok out) f g = (ok out, refl)
    settled r (err e) f g = (_, settle-err p args r e f g)

    module _ (f : IsFlag args "--skip-exists") (g : IsFlag args "--skip-not-exists") where
      execute_resource_action-returns :
          (r : Resource p.Object) (w : World p.Store)
          → IsElement r
          → (x : Result (Option (Resource p.Object))) × (w' : World p.Store)
            × (execute_resource_action p args client action r w ≡ (returned x, w'))
      execute_resource_action-returns r w (k, o, same, m, t) =
          let (x, s) = settled (struct o) (client_call p action client k o w.system).0 f g in
          (
            x,
            record w { system = (client_call p action client k o w.system).1 },
            rw same (execute_resource_action-element p c args client action k o w m t ∙ rw s),
          )

      execute_first-Returns :
          (r : Resource p.Object) (rs : List (Resource p.Object)) (res : CommandResults p)
          → (w w' : World p.Store) (x : Result (Option (Resource p.Object)))
          → execute_resource_action p args client action r w ≡ (returned x, w')
          → ((res' : CommandResults p) → Returns (execute_all p args client action rs res' w'))
          → Returns (execute_all p args client action (r ∷ rs) res w)
      unfolding execute_all
      execute_first-Returns r rs res w w' (ok x) ran rest = rw (ran, execute_all) (rest _)
      execute_first-Returns r rs res w w' (err e) ran rest = rw (ran, execute_all) tt

      execute_all-Returns :
          (rs : List (Resource p.Object)) (res : CommandResults p) (w : World p.Store)
          → All IsElement rs
          → Returns (execute_all p args client action rs res w)
      unfolding execute_all
      execute_all-Returns [] res w h = tt
      execute_all-Returns (r ∷ rs) res w (h, hs) =
          let (x, w', ran) = execute_resource_action-returns r w h in
          execute_first-Returns r rs res w w' x ran (λ res'. execute_all-Returns rs res' w' hs)

  module _ (c : HasConstructors p) (args : Args) (action : Action) (f : IsFlag args "--skip-exists")
      (g : IsFlag args "--skip-not-exists") (config : String)
      (given : args "--config" ≡ text config) where
    pub prepared :
        (rs : List (Resource p.Object)) → (s : Step p p.Client) × (prepare p args rs ≡ returned s)
    unfolding prepare
    prepared [] = (_, refl)
    prepared (r ∷ rs) = elim (Option-cases (debug_log p (r ∷ rs))) [
      | inl e ↦ (
        returns p (new_client p config),
        rw (e, prepare) (rw (must_string-text args "--config" given, prepare)),
      )
      | inr (x, e) ↦ (return (failed p x), rw (e, prepare))
    ]

    run_prepared :
        (rs : List (Resource p.Object)) (w : World p.Store)
        → load_resources p args ≡ returned (go_on rs)
        → All IsElement rs
        → (s : Step p p.Client) → prepare p args rs ≡ returned s
        → Returns (execute_config_command p args action w)
    unfolding execute_config_command
    run_prepared rs w loads h (return res) e =
        rw (loads, execute_config_command) (rw (e, execute_config_command) tt)
    run_prepared rs w loads h (go_on client) e =
        rw (loads, execute_config_command)
          (rw (e, execute_config_command)
            (execute_all-Returns c args client action f g rs (initial_results p rs) w h))

    -- A command that has loaded structs of registered kinds, with a text for --config and
    -- flags for the two skip options, returns, where the API's constructors give a struct
    -- its type.
    pub execute_config_command-Returns :
        (rs : List (Resource p.Object)) (w : World p.Store)
        → load_resources p args ≡ returned (go_on rs)
        → All IsElement rs
        → Returns (execute_config_command p args action w)
    execute_config_command-Returns rs w loads h =
        let (s, e) = prepared rs in run_prepared rs w loads h s e

  abbrev pub identifiers : Args → Identifiers
  identifiers args = record {
    name = text_or_blank args "<NAME>";
    on_node = text_or_blank args "--node";
    workload = text_or_blank args "--workload";
    orchestrator = text_or_blank args "--orchestrator";
    scope = text_or_blank args "--scope";
  }

  get_resource_from_arguments-eq :
      (args : Args) (n : NamesResource args)
      → get_resource_from_arguments p args ≡ returned (resource_for p n.kind.0 (identifiers args))
  unfolding get_resource_from_arguments
  get_resource_from_arguments-eq args n = rw (
    must_string-text args "<KIND>" n.kind.1,
    arg_string_or_blank-eq args "<NAME>" n.name,
    arg_string_or_blank-eq args "--node" n.on_node,
    arg_string_or_blank-eq args "--workload" n.workload,
    arg_string_or_blank-eq args "--orchestrator" n.orchestrator,
    arg_string_or_blank-eq args "--scope" n.scope,
    get_resource_from_arguments,
  )

  pub loaded_named :
      (args : Args) (n : NamesResource args)
      → load_resources p args
        ≡ returned (elim (resource_for p n.kind.0 (identifiers args)) [
          | err e ↦ return (failed p e)
          | ok resource ↦ go_on (resource ∷ [])
        ])
  unfolding load_resources
  loaded_named args n =
      rw (n.filename, load_resources) (rw (get_resource_from_arguments-eq args n, load_resources))

  module _ (c : HasConstructors p) (fields : HasFields p) (args : Args) (action : Action)
      (n : NamesResource args) where
    named_Returns :
        (r : Result (Resource p.Object)) (w : World p.Store)
        → resource_for p n.kind.0 (identifiers args) ≡ r
        → Returns (execute_config_command p args action w)
    unfolding execute_config_command
    named_Returns (err e) w h =
        rw (loaded_named args n, execute_config_command) (rw (h, execute_config_command) tt)
    named_Returns (ok r) w h =
        let (k, o, _, same, is_of) = resource_for-IsOf c fields n.kind.0 (identifiers args) r h in
        execute_config_command-Returns c args action n.skip_exists n.skip_not_exists n.config.0
          n.config.1 (r ∷ []) w (rw (loaded_named args n) (rw h))
          ((k, o, same, is_of.0, is_of.1), tt)

    -- A command whose arguments name a resource, with the options of the types that its
    -- usage text declares and no file, returns, where the API's constructors give a struct
    -- its type and the assignments to its fields keep it: it neither panics nor exits,
    -- whatever the names, the datastore and its answers are.
    pub execute_config_command-Returns_for_arguments :
        (w : World p.Store) → Returns (execute_config_command p args action w)
    execute_config_command-Returns_for_arguments w =
        named_Returns (resource_for p n.kind.0 (identifiers args)) w refl
