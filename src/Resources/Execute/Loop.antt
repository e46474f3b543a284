-- ===== src/Resources/Execute/Loop.antt =====
-- The loop over the resources: what it has done when it ends.
use mathlib.Core.List.{append-nil, append_assoc}
use operations_calico_contai.Base.{
  ℕ, suc, ◌+◌, ◌≡◌, ◌∙◌, refl, Option, none, some, List, [], ◌∷◌, ◌++◌, length, arith,
}
use operations_calico_contai.Base.Result.{Error, Result, ok, err}
use operations_calico_contai.Base.Outcome.{Outcome, returned, exited, panicked}
use operations_calico_contai.Base.Proc.{World}
use operations_calico_contai.Args.{Args}
use operations_calico_contai.Platform.{Platform}
use operations_calico_contai.Manager.{Resource}
use operations_calico_contai.Resources.Execute.{
  Action, CommandResults, execute_resource_action, execute_all,
}

plus_one : (a b : ℕ) → a + 1 + b ≡ a + suc b
plus_one a b = omega arith

plus_zero : (a : ℕ) → a + 0 ≡ a
plus_zero a = omega arith

module _ (p : Platform) (args : Args) (client : p.Client) (action : Action) where
  -- The actions ran one after the other on these resources, from one world to another, with these
  -- results; all of them succeeded, or all but the last, whose error it is.
  pub data Runs
      : List (Resource p.Object)
        → World p.Store
        → List (Option (Resource p.Object))
        → Option Error
        → World p.Store
        → Type 0 where
    finish : {w : World p.Store} → Runs [] w [] none w
    stop :
        {r : Resource p.Object} {rs : List (Resource p.Object)} {e : Error} {w w' : World p.Store}
        → execute_resource_action p args client action r w ≡ (returned (err e), w')
        → Runs (r ∷ rs) w [] (some e) w'
    step :
        {r : Resource p.Object} {rs : List (Resource p.Object)} {x : Option (Resource p.Object)}
        → {xs : List (Option (Resource p.Object))} {e : Option Error} {w w' w'' : World p.Store}
        → execute_resource_action p args client action r w ≡ (returned (ok x), w')
        → Runs rs w' xs e w''
        → Runs (r ∷ rs) w (x ∷ xs) e w''

  -- The results of a run, on top of those before it.
  abbrev pub collected :
      CommandResults p → List (Option (Resource p.Object)) → Option Error → CommandResults p
  collected res xs none = record res {
    resources = res.resources ++ xs;
    num_handled = res.num_handled + length xs;
  }
  collected res xs (some e) = record res {
    resources = res.resources ++ xs;
    num_handled = res.num_handled + length xs;
    err = some e;
  }

  abbrev pub Explained :
      List (Resource p.Object)
      → CommandResults p
      → World p.Store
      → Outcome (CommandResults p) × World p.Store
      → Type 0
  Explained rs res w (returned res', w') =
      (xs : List (Option (Resource p.Object))) × (e : Option Error) × (res' ≡ collected res xs e)
      × Runs rs w xs e w'
  Explained rs res w (exited n, w') = Unit
  Explained rs res w (panicked, w') = Unit

  collected_step :
      (res : CommandResults p) (x : Option (Resource p.Object))
      → (xs : List (Option (Resource p.Object))) (e : Option Error)
      → collected
          (record res { resources = res.resources ++ (x ∷ []); num_handled = res.num_handled + 1 })
          xs
          e
        ≡ collected res (x ∷ xs) e
  collected_step res x xs none =
      cc (append_assoc res.resources (x ∷ []) xs, plus_one res.num_handled (length xs))
  collected_step res x xs (some e) =
      cc (append_assoc res.resources (x ∷ []) xs, plus_one res.num_handled (length xs))

  explain_step :
      (r : Resource p.Object) (rs : List (Resource p.Object)) (res : CommandResults p)
      → (w w' : World p.Store) (x : Option (Resource p.Object))
      → (o : Outcome (CommandResults p) × World p.Store)
      → execute_resource_action p args client action r w ≡ (returned (ok x), w')
      → Explained rs
          (record res { resources = res.resources ++ (x ∷ []); num_handled = res.num_handled + 1 })
          w'
          o
      → Explained (r ∷ rs) res w o
  explain_step r rs res w w' x (returned res', w'') ran (xs, e, same, runs) =
      (x ∷ xs, e, same ∙ collected_step res x xs e, step ran runs)
  explain_step r rs res w w' x (exited n, w'') ran h = tt
  explain_step r rs res w w' x (panicked, w'') ran h = tt

  explain_first :
      (r : Resource p.Object) (rs : List (Resource p.Object)) (res : CommandResults p)
      → (w : World p.Store) → (o : Outcome (Result (Option (Resource p.Object))) × World p.Store)
      → execute_resource_action p args client action r w ≡ o
      → ((res' : CommandResults p) (w' : World p.Store)
          → Explained rs res' w' (execute_all p args client action rs res' w'))
      → Explained (r ∷ rs) res w (execute_all p args client action (r ∷ rs) res w)
  unfolding execute_all
  explain_first r rs res w (returned (ok x), w') ran rest =
      rw (ran, execute_all) (explain_step r rs res w w' x _ ran (rest _ w'))
  explain_first r rs res w (returned (err e), w') ran rest =
      rw (ran, execute_all)
        ([], some e, cc (append-nil res.resources, plus_zero res.num_handled), stop ran)
  explain_first r rs res w (exited n, w') ran rest = rw (ran, execute_all) tt
  explain_first r rs res w (panicked, w') ran rest = rw (ran, execute_all) tt

  -- The loop returns what it collected from the actions that it ran: all of them if none failed,
  -- and those up to the first that failed otherwise, in the order of the resources.
  pub execute_all-Runs :
      (rs : List (Resource p.Object)) (res : CommandResults p) (w : World p.Store)
      → Explained rs res w (execute_all p args client action rs res w)
  unfolding execute_all
  execute_all-Runs [] res w =
      ([], none, cc (append-nil res.resources, plus_zero res.num_handled), finish)
  execute_all-Runs (r ∷ rs) res w =
      explain_first r rs res w (execute_resource_action p args client action r w) refl
        (execute_all-Runs rs)
