-- ===== src/Resources/Execute/Listed.antt =====
-- executeConfigCommand with the list action: what the resources are that it returns.
use operations_calico_contai.Base.{
  ◌≡◌, refl, Bool, true, false, Option, none, some, List, [], ◌∷◌, All, All-append, arith,
  if◌then◌else◌,
}
use operations_calico_contai.Base.Result.{Error, Result, ok, err}
use operations_calico_contai.Base.Outcome
use operations_calico_contai.Base.Outcome.{Outcome, returned, exited, panicked}
use operations_calico_contai.Base.Proc.{World}
use operations_calico_contai.Args.{Args}
use operations_calico_contai.Args.Laws.{OfResources}
use operations_calico_contai.Platform.{Platform, ResourceKind, HasConstructors, HasFields}
use operations_calico_contai.Manager.{Resource, struct, pointer}
use operations_calico_contai.Manager.Files.Decodes.{IsOwn, IsDecoded, HasZero, Decodes}
use operations_calico_contai.Resources.Execute.{
  CommandResults, action_list, settle, skips, execute_resource_action, execute_all, initial_results,
  load_resources, prepare, execute_config_command, Step, return, go_on,
}
use operations_calico_contai.Resources.Execute.Actions.{
  client_call, execute_resource_action-element,
}
use operations_calico_contai.Resources.Execute.Total.{IsElement, prepared}
use operations_calico_contai.Resources.Execute.FromFile.{Loads, load_resources-Loads}

module _ (p : Platform) where
  -- A struct of one of the kinds, or a pointer to one or to a list of such.
  abbrev pub IsPrintable : Option (Resource p.Object) → Type 0
  IsPrintable none = ⊥
  IsPrintable (some (struct o)) = IsOwn p o
  IsPrintable (some (pointer o)) = IsDecoded p o

  -- The client lists structs of the kinds, or lists of such.
  abbrev pub Lists : Type 0
  Lists =
      (client : p.Client) (k : ResourceKind) (m : p.Metadata) (s : p.Store) (o : p.Object)
      → (p.list client k m s).0 ≡ ok o
      → IsDecoded p o

  abbrev pub ArePrintable : Outcome (CommandResults p) × World p.Store → Type 0
  ArePrintable (returned res, w) = All IsPrintable res.resources
  ArePrintable (exited n, w) = Unit
  ArePrintable (panicked, w) = Unit

  abbrev OnePrintable : Outcome (Result (Option (Resource p.Object))) → Type 0
  OnePrintable (returned (ok x)) = IsPrintable x
  OnePrintable (returned (err e)) = Unit
  OnePrintable (exited n) = Unit
  OnePrintable panicked = Unit

  module _ (args : Args) where
    skipped :
        (r : Resource p.Object) (e : Error) (o : Outcome Bool)
        → IsPrintable (some r)
        → OnePrintable (Outcome.◌>>=◌ o λ skip. returned (if skip then ok (some r) else err e))
    skipped r e (returned true) h = h
    skipped r e (returned false) h = tt
    skipped r e (exited n) h = tt
    skipped r e panicked h = tt

    settled :
        (r : Resource p.Object) (out : Result (Option (Resource p.Object)))
        → IsPrintable (some r)
        → OnePrintable (returned out)
        → OnePrintable (settle p args r out)
    unfolding settle
    settled r (ok x) h found = found
    settled r (err e) h found = skipped r e (skips p args e) h

    module _ (c : HasConstructors p) (lists : Lists) (client : p.Client) where
      listed :
          (k : ResourceKind) (o : p.Object) (s : p.Store) (r : Result p.Object)
          → (p.list client k (p.metadata o) s).0 ≡ r
          → OnePrintable (returned (client_call p action_list client k o s).0)
      listed k o s (ok x) found = rw found (lists client k (p.metadata o) s x found)
      listed k o s (err e) found = rw found tt

      execute_first :
          (r : Resource p.Object) (rs : List (Resource p.Object)) (res : CommandResults p)
          → (w w' : World p.Store) (o : Outcome (Result (Option (Resource p.Object))))
          → execute_resource_action p args client action_list r w ≡ (o, w')
          → OnePrintable o
          → All IsPrintable res.resources
          → ((res' : CommandResults p)
              → All IsPrintable res'.resources
              → ArePrintable (execute_all p args client action_list rs res' w'))
          → ArePrintable (execute_all p args client action_list (r ∷ rs) res w)
      unfolding execute_all
      execute_first r rs res w w' (returned (ok x)) ran one h rest =
          rw (ran, execute_all) (rest _ (All-append IsPrintable res.resources (x ∷ []) h (one, tt)))
      execute_first r rs res w w' (returned (err e)) ran one h rest = rw (ran, execute_all) h
      execute_first r rs res w w' (exited n) ran one h rest = rw (ran, execute_all) tt
      execute_first r rs res w w' panicked ran one h rest = rw (ran, execute_all) tt

      execute_all-ArePrintable :
          (rs : List (Resource p.Object)) (res : CommandResults p) (w : World p.Store)
          → All (IsElement p) rs
          → All IsPrintable res.resources
          → ArePrintable (execute_all p args client action_list rs res w)
      unfolding execute_all
      execute_all-ArePrintable [] res w hs h = h
      execute_all-ArePrintable (r ∷ rs) res w ((k, o, same, m, t), hs) h =
          let (out, s) = client_call p action_list client k o w.system in
          execute_first r rs res w (record w { system = s }) (settle p args (struct o) out)
            (rw same (execute_resource_action-element p c args client action_list k o w m t))
            (settled (struct o) out (k, m, t)
              (listed k o w.system (p.list client k (p.metadata o) w.system).0 refl))
            h (λ res' h'. execute_all-ArePrintable rs res' _ hs h')

  prepare-return :
      (args : Args) (rs : List (Resource p.Object)) {res : CommandResults p}
      → prepare p args rs ≡ returned (return res)
      → res.resources ≡ []
  unfolding prepare
  prepare-return args [] h = ground arith
  prepare-return args (r ∷ rs) h = ground arith

  module _ (c : HasConstructors p) (fields : HasFields p) (z : HasZero p) (d : Decodes p)
      (lists : Lists) (args : Args) (g : OfResources args) where
    from_prepared :
        (rs : List (Resource p.Object)) (s : Step p p.Client) (w : World p.Store)
        → load_resources p args ≡ returned (go_on rs)
        → All (IsElement p) rs
        → prepare p args rs ≡ returned s
        → ArePrintable (execute_config_command p args action_list w)
    unfolding execute_config_command
    from_prepared rs (return res) w loads h e =
        rw (loads, execute_config_command)
          (rw (e, execute_config_command) (rw (prepare-return args rs e) tt))
    from_prepared rs (go_on client) w loads h e =
        rw (loads, execute_config_command)
          (rw (e, execute_config_command)
            (execute_all-ArePrintable args c lists client rs (initial_results p rs) w h tt))

    from_loaded :
        (s : Step p (List (Resource p.Object))) (w : World p.Store)
        → load_resources p args ≡ returned s
        → Loads p s
        → ArePrintable (execute_config_command p args action_list w)
    unfolding execute_config_command
    from_loaded (return res) w loads h = rw (loads, execute_config_command) (rw h tt)
    from_loaded (go_on rs) w loads h =
        let (s, e) =
          prepared p c args action_list g.skip_exists g.skip_not_exists g.config.0 g.config.1 rs in
        from_prepared rs s w loads h e

    -- What is listed can be printed.
    pub execute_config_command-ArePrintable :
        (w : World p.Store) → ArePrintable (execute_config_command p args action_list w)
    execute_config_command-ArePrintable w =
        let (s, loads, are) = load_resources-Loads p c fields z d args g in
        from_loaded s w loads are
