-- ===== src/Resources/Execute/Single.antt =====
-- executeConfigCommand, where the arguments name one resource: at most one call of the client.
use operations_calico_contai.Base.{
  ◌≡◌, ◌⊎◌, ◌∙◌, sym, ap, Option-cases, Bool-cases, refl, Option, none, some, List, [], ◌∷◌, inl,
  inr, arith, if◌then◌else◌,
}
use operations_calico_contai.Base.Result.{Error, Result, ok, err}
use operations_calico_contai.Base.Outcome.{returned}
use operations_calico_contai.Base.Outcome
use operations_calico_contai.Base.Proc.{World}
use operations_calico_contai.Args.{Args}
use operations_calico_contai.Args.Laws.{NamesResource, must_string-text}
use operations_calico_contai.Platform.{
  Platform, ResourceKind, HasConstructors, HasFields, element, element_metadata,
}
use operations_calico_contai.ClientManager.{new_client}
use operations_calico_contai.Manager.{Resource, struct}
use operations_calico_contai.Resources.Arguments.{resource_for}
use operations_calico_contai.Resources.Arguments.Laws.{resource_for-IsOf}
use operations_calico_contai.Resources.Execute.{
  Action, CommandResults, failed, Step, return, go_on, settle, execute_resource_action, execute_all,
  load_resources, prepare, initial_results, execute_config_command, returns, debug_log,
}
use operations_calico_contai.Resources.Execute.Actions.{
  skippable, client_call, execute_resource_action-element, settle-err,
}
use operations_calico_contai.Resources.Execute.Total.{identifiers, loaded_named, prepared}

module _ (p : Platform) (args : Args) (action : Action) where
  -- What the results have for what the client returned.
  abbrev pub error_left : Result (Option (Resource p.Object)) → Option Error
  error_left (ok x) = none
  error_left (err e) = if skippable args e then none else some e

  -- From any world, the command ends with the same error before its action.
  abbrev pub EndsEarly : Error → Type 0
  EndsEarly e =
      (w : World p.Store)
      → (res : CommandResults p) × (execute_config_command p args action w ≡ (returned res, w))
        × (res.err ≡ some e)

  -- From any world, the command calls the same method once.
  abbrev pub CallsOnce : p.Client → ResourceKind → p.Object → Type 0
  CallsOnce client k o =
      (w : World p.Store)
      → (res : CommandResults p) × (execute_config_command p args action w
          ≡ (returned res, record w { system = (client_call p action client k o w.system).1 }))
        × (res.err ≡ error_left (client_call p action client k o w.system).0)

  -- The results that the loop makes of the result of its one action.
  abbrev finished : p.Object → Result (Option (Resource p.Object)) → CommandResults p
  finished o (err e) = record (initial_results p (struct o ∷ [])) { err = some e }
  finished o (ok x) = record (initial_results p (struct o ∷ [])) {
    resources = x ∷ [];
    num_handled = 1;
  }

  abbrev settles :
      p.Object → Result (Option (Resource p.Object)) → Result (Option (Resource p.Object))
  settles o (ok x) = ok x
  settles o (err e) = if skippable args e then ok (some (struct o)) else err e

  settle-eq :
      (o : p.Object) (r : Result (Option (Resource p.Object)))
      → NamesResource args
      → settle p args (struct o) r ≡ returned (settles o r)
  unfolding settle
  settle-eq o (ok x) n = refl
  settle-eq o (err e) n = settle-err p args (struct o) e n.skip_exists n.skip_not_exists

  execute_all-finished :
      (client : p.Client) (o : p.Object) (w w' : World p.Store)
      → (x : Result (Option (Resource p.Object)))
      → execute_resource_action p args client action (struct o) w ≡ (returned x, w')
      → execute_all p args client action (struct o ∷ []) (initial_results p (struct o ∷ [])) w
        ≡ (returned (finished o x), w')
  unfolding execute_all initial_results
  execute_all-finished client o w w' (ok x) ran = rw (ran, execute_all) refl
  execute_all-finished client o w w' (err e) ran = rw (ran, execute_all) refl

  finished-error_left :
      (o : p.Object) (r : Result (Option (Resource p.Object)))
      → (finished o (settles o r)).err ≡ error_left r
  unfolding initial_results
  finished-error_left o (ok x) = refl
  finished-error_left o (err e) = elim (Bool-cases (skippable args e)) [
    | inl skipped ↦ rw skipped refl
    | inr kept ↦ rw kept refl
  ]

  return_eq : {a b : Step p p.Client} → Outcome.returned a ≡ returned b → a ≡ b
  return_eq e = ground arith

  connected :
      (r : Result p.Client) (res : CommandResults p)
      → returns p r ≡ return res
      → (e : Error) × (res.err ≡ some e)
  connected (ok client) res e = absurd (ground arith)
  connected (err x) res e = let same : failed p x ≡ res = ground arith in (x, rw (← same) refl)

  prepare-return :
      (r : Resource p.Object) (rs : List (Resource p.Object)) (res : CommandResults p)
      → NamesResource args
      → prepare p args (r ∷ rs) ≡ returned (return res)
      → (e : Error) × (res.err ≡ some e)
  unfolding prepare
  prepare-return r rs res n ended = elim (Option-cases (debug_log p (r ∷ rs))) [
    | inl fine ↦
        let connects : prepare p args (r ∷ rs) ≡ returned (returns p (new_client p n.config.0)) =
          rw (fine, prepare) (rw (must_string-text args "--config" n.config.1, prepare)) in
        connected (new_client p n.config.0) res (return_eq (sym connects ∙ ended))
    | inr (x, unlogged) ↦
        let ends : prepare p args (r ∷ rs) ≡ returned (return (failed p x)) =
          rw (unlogged, prepare) in
        connected (err x) res (return_eq (sym ends ∙ ended))
  ]

  module _ (c : HasConstructors p) (fields : HasFields p) (n : NamesResource args) where
    calls_once :
        (client : p.Client) (k : ResourceKind) (o : p.Object)
        → p.type_metadata o ≡ element_metadata k
        → p.struct_type o ≡ element k
        → load_resources p args ≡ returned (go_on (struct o ∷ []))
        → prepare p args (struct o ∷ []) ≡ returned (go_on client)
        → CallsOnce client k o
    unfolding execute_config_command
    calls_once client k o m t loads prepares w =
        let r = (client_call p action client k o w.system).0 in
        let ran = execute_resource_action-element p c args client action k o w m t in
        (
          finished o (settles o r),
          rw (loads, execute_config_command)
              (rw (prepares, execute_config_command)
                (execute_all-finished client o w _ (settles o r) (
                  ran
                  ∙ ap
                      (λ x. (x, record w { system = (client_call p action client k o w.system).1 }))
                      (settle-eq o r n)))),
          finished-error_left o r,
        )

    from_step :
        (k : ResourceKind) (o : p.Object) (s : Step p p.Client)
        → p.type_metadata o ≡ element_metadata k
        → p.struct_type o ≡ element k
        → load_resources p args ≡ returned (go_on (struct o ∷ []))
        → prepare p args (struct o ∷ []) ≡ returned s
        → ((e : Error) × EndsEarly e)
          ⊎ ((client : p.Client) × (k : ResourceKind) × (o : p.Object) × CallsOnce client k o)
    unfolding execute_config_command
    from_step k o (return res) m t loads prepares =
        let (e, fails) = prepare-return (struct o) [] res n prepares in
        inl (
          e,
          λ w. (
            res,
            rw (loads, execute_config_command) (rw (prepares, execute_config_command) refl),
            fails,
          ),
        )
    from_step k o (go_on client) m t loads prepares =
        inr (client, k, o, calls_once client k o m t loads prepares)

    from_resource :
        (r : Result (Resource p.Object))
        → resource_for p n.kind.0 (identifiers p args) ≡ r
        → ((e : Error) × EndsEarly e)
          ⊎ ((client : p.Client) × (k : ResourceKind) × (o : p.Object) × CallsOnce client k o)
    unfolding execute_config_command
    from_resource (err e) made = inl (
      e,
      λ w. (
        failed p e,
        rw (loaded_named p args n, execute_config_command) (rw (made, execute_config_command) refl),
        refl,
      ),
    )
    from_resource (ok r) made =
        let (k, o, _, same, is_of) =
          resource_for-IsOf c fields n.kind.0 (identifiers p args) r made in
        let (s, prepares) =
          prepared p c args action n.skip_exists n.skip_not_exists n.config.0 n.config.1
            (struct o ∷ []) in
        from_step k o s is_of.0 is_of.1 (rw (loaded_named p args n) (rw made (rw same refl)))
          prepares

    -- A command that names its resource either ends before its action, always with the same error,
    -- or always calls the same method of the client for the same resource once.
    pub execute_config_command-once :
        ((e : Error) × EndsEarly e)
        ⊎ ((client : p.Client) × (k : ResourceKind) × (o : p.Object) × CallsOnce client k o)
    execute_config_command-once = from_resource (resource_for p n.kind.0 (identifiers p args)) refl
