-- ===== src/Resources/Execute/Results.antt =====
-- What the results of a command on resources say of the actions that it ran.
use mathlib.Core.Path.{subst}
use operations_calico_contai.Base.{
  false, ℕ, ◌<◌, ◌≤◌, ◌≡◌, ◌≢◌, ◌⊎◌, refl, inl, inr, Option, none, some, List, [], ◌∷◌, length,
  arith,
}
use operations_calico_contai.Base.Result.{Error}
use operations_calico_contai.Base.Outcome.{Outcome, returned, exited, panicked}
use operations_calico_contai.Base.Proc.{World}
use operations_calico_contai.Args.{Args}
use operations_calico_contai.Platform.{Platform}
use operations_calico_contai.Manager.{Resource}
use operations_calico_contai.Resources.Execute.{
  Action, CommandResults, return, go_on, load_resources, prepare, initial_results,
  execute_config_command, Step,
}
use operations_calico_contai.Resources.Execute.Loop.{
  Runs, finish, stop, step, collected, Explained, execute_all-Runs,
}
use operations_calico_contai.Resources.Execute.Kinds.{initial_results-kind}

module _ (p : Platform) where
  -- The command returned before its first action, with an error and nothing else.
  abbrev pub IsEarly : CommandResults p → Type 0
  IsEarly res =
      (res.num_resources ≡ 0) × (res.num_handled ≡ 0) × (res.err ≢ none) × (res.resources ≡ [])

  load_resources-IsEarly :
      (args : Args) {res : CommandResults p}
      → load_resources p args ≡ returned (return res)
      → IsEarly res
  unfolding load_resources
  load_resources-IsEarly args h = ground arith

  prepare-IsEarly :
      (args : Args) (rs : List (Resource p.Object)) {res : CommandResults p}
      → prepare p args rs ≡ returned (return res)
      → IsEarly res
  unfolding prepare
  prepare-IsEarly args [] h = ground arith
  prepare-IsEarly args (r ∷ rs) h = ground arith

  module _ (args : Args) (action : Action) where
    -- It ran the action on the loaded resources and collected what the runs returned.
    abbrev pub IsRun : CommandResults p → World p.Store → World p.Store → Type 0
    IsRun res w w' =
        (rs : List (Resource p.Object)) × (client : p.Client) × (xs : List
          (Option (Resource p.Object)))
        × (e : Option Error) × (load_resources p args ≡ returned (go_on rs))
        × (rs ≢ [])
        × (res ≡ collected p args client action (initial_results p rs) xs e)
        × Runs p args client action rs w xs e w'

    abbrev pub Accounted : World p.Store → Outcome (CommandResults p) × World p.Store → Type 0
    Accounted w (returned res, w') = ((w' ≡ w) × IsEarly res) ⊎ IsRun res w w'
    Accounted w (exited n, w') = Unit
    Accounted w (panicked, w') = Unit

    run-Accounted :
        (rs : List (Resource p.Object)) (client : p.Client) (w : World p.Store)
        → load_resources p args ≡ returned (go_on rs)
        → rs ≢ []
        → (o : Outcome (CommandResults p) × World p.Store)
        → Explained p args client action rs (initial_results p rs) w o
        → Accounted w o
    run-Accounted rs client w loads some_of (returned res, w') (xs, e, same, runs) =
        inr (rs, client, xs, e, loads, some_of, same, runs)
    run-Accounted rs client w loads some_of (exited n, w') h = tt
    run-Accounted rs client w loads some_of (panicked, w') h = tt

    prepare-nil : {c : p.Client} → prepare p args [] ≢ returned (go_on c)
    unfolding prepare
    prepare-nil h = ground arith

    prepare-Accounted :
        (rs : List (Resource p.Object)) (w : World p.Store)
        → load_resources p args ≡ returned (go_on rs)
        → (o : Outcome (Step p p.Client)) → prepare p args rs ≡ o
        → Accounted w (execute_config_command p args action w)
    unfolding execute_config_command
    prepare-Accounted rs w loads (returned (return res)) e =
        rw (loads, execute_config_command)
          (rw (e, execute_config_command) (inl (refl, prepare-IsEarly args rs e)))
    prepare-Accounted rs w loads (returned (go_on client)) e =
        rw (loads, execute_config_command)
          (rw (e, execute_config_command)
            (run-Accounted rs client w loads (λ nothing. prepare-nil (rw nothing at e)) _
              (execute_all-Runs p args client action rs (initial_results p rs) w)))
    prepare-Accounted rs w loads (exited n) e =
        rw (loads, execute_config_command) (rw (e, execute_config_command) tt)
    prepare-Accounted rs w loads panicked e =
        rw (loads, execute_config_command) (rw (e, execute_config_command) tt)

    load_resources-Accounted :
        (w : World p.Store) (o : Outcome (Step p (List (Resource p.Object))))
        → load_resources p args ≡ o
        → Accounted w (execute_config_command p args action w)
    unfolding execute_config_command
    load_resources-Accounted w (returned (return res)) e =
        rw (e, execute_config_command) (inl (refl, load_resources-IsEarly args e))
    load_resources-Accounted w (returned (go_on rs)) e =
        prepare-Accounted rs w e (prepare p args rs) refl
    load_resources-Accounted w (exited n) e = rw (e, execute_config_command) tt
    load_resources-Accounted w panicked e = rw (e, execute_config_command) tt

    -- From any world: a command that returns has changed and printed nothing and has an
    -- error, no resources counted and no results; or the resources were loaded and are some,
    -- and it has run its action on them in order, up to the first error, and returns what
    -- those runs gave. A command that exits or panics is not described.
    pub execute_config_command-Accounted :
        (w : World p.Store) → Accounted w (execute_config_command p args action w)
    execute_config_command-Accounted w = load_resources-Accounted w (load_resources p args) refl

    abbrev Counted : Option Error → ℕ → ℕ → Type 0
    Counted none handled total = handled ≡ total
    Counted (some e) handled total = handled < total

    Runs-Counted :
        (client : p.Client) {rs : List (Resource p.Object)} {w w' : World p.Store}
        → {xs : List (Option (Resource p.Object))} {e : Option Error}
        → Runs p args client action rs w xs e w'
        → Counted e (length xs) (length rs)
    Runs-Counted client finish = omega arith
    Runs-Counted client (stop ran) = omega arith
    Runs-Counted client (step {e = none} ran runs) = omega (arith, Runs-Counted client runs)
    Runs-Counted client (step {e = some e} ran runs) = omega (arith, Runs-Counted client runs)

  pub record IsConsistent (res : CommandResults p) : Type 0 where
    -- One result for each resource that was handled.
    pub collects : res.num_handled ≡ length res.resources
    -- There is no error, the file is valid, and all resources were handled, at least one; or there
    -- is an error, and some resource was not handled or there is none.
    pub ending :
        ((res.err ≡ none)
          × (res.num_handled ≡ res.num_resources)
          × (0 < res.num_handled)
          × (res.file_invalid ≡ false))
        ⊎ ((res.err ≢ none) × ((res.num_handled < res.num_resources) ⊎ (res.num_resources ≡ 0)))
    pub bounded : res.num_handled ≤ res.num_resources

  IsEarly-IsConsistent : (res : CommandResults p) → IsEarly res → IsConsistent res
  IsEarly-IsConsistent res (none_given, none_handled, has_error, nothing) = record {
    collects = rw nothing none_handled;
    ending = inr (has_error, inr none_given);
    bounded = omega arith;
  }

  initial_results-valid :
      (rs : List (Resource p.Object)) → (initial_results p rs).file_invalid ≡ false
  unfolding initial_results
  initial_results-valid rs = refl

  module _ (args : Args) (action : Action) where
    IsRun-IsConsistent :
        (res : CommandResults p) (w w' : World p.Store)
        → IsRun args action res w w'
        → IsConsistent res
    unfolding initial_results
    IsRun-IsConsistent res w w' ([], client, xs, e, loads, some_of, same, runs) =
        absurd (some_of refl)
    IsRun-IsConsistent res w w' (r ∷ rs, client, xs, none, loads, some_of, same, runs) =
        let (total, _, _, _) = initial_results-kind p r rs in
        let valid = initial_results-valid (r ∷ rs) in
        let counted = Runs-Counted args action client runs in
        rw same (record {
          collects = omega arith;
          ending = inl (refl, omega (arith, total, counted), omega (arith, total, counted), valid);
          bounded = omega (arith, total, counted);
        })
    IsRun-IsConsistent res w w' (r ∷ rs, client, xs, some e, loads, some_of, same, runs) =
        let (total, _, _, _) = initial_results-kind p r rs in
        let counted = Runs-Counted args action client runs in
        rw same (record {
          collects = omega arith;
          ending = inr ((λ h. cc), inl (omega (arith, total, counted)));
          bounded = omega (arith, total, counted);
        })

    -- If a command returns its results, they are consistent: there is one result for each
    -- handled resource, no more are handled than there are, and either there is no error,
    -- the file is valid and all resources were handled, at least one, or there is an error
    -- and fewer were handled than there are, unless there is none.
    pub execute_config_command-IsConsistent :
        (w w' : World p.Store) (res : CommandResults p)
        → execute_config_command p args action w ≡ (returned res, w')
        → IsConsistent res
    execute_config_command-IsConsistent w w' res ran =
        elim (subst (Accounted args action w) ran
          (execute_config_command-Accounted args action w)) [
            | inl (_, early) ↦ IsEarly-IsConsistent res early
            | inr run ↦ IsRun-IsConsistent res w w' run
          ]
