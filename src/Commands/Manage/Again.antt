-- ===== src/Commands/Manage/Again.antt =====
-- delete.go: a resource that has been deleted is deleted again.
use mathlib.Core.Path.{subst}
use operations_calico_contai.Base.{
  ◌≡◌, ◌⊎◌, ◌∙◌, sym, ap, refl, Option, none, some, inl, inr, arith, if◌then◌else◌, Bool-cases,
  String,
}
use operations_calico_contai.Base.Result.{Error, does_not_exist, already_exists, other}
use operations_calico_contai.Base.Outcome.{Outcome, returned, exited}
use operations_calico_contai.Base.Proc.{World}
use operations_calico_contai.Base.Proc.Quiet.{IsQuiet}
use operations_calico_contai.Args.{Args, nil}
use operations_calico_contai.Args.Laws.{NamesResource, is_set}
use operations_calico_contai.Platform.{Platform, ResourceKind, HasConstructors, HasFields}
use operations_calico_contai.Resources.Execute.{
  action_delete, CommandResults, execute_config_command,
}
use operations_calico_contai.Resources.Execute.Actions.{skippable, client_call}
use operations_calico_contai.Resources.Execute.Single.{
  error_left, CallsOnce, execute_config_command-once,
}
use operations_calico_contai.Commands.Manage.{Words, report, report_count, report_handled, manage}
use operations_calico_contai.Commands.Manage.Laws.{status, manage-status}

-- What is gone for the client, deleted or not there before, is not there afterwards.
pub record Forgets (p : Platform) : Type 0 where
  pub stays_gone :
      (client : p.Client) (k : ResourceKind) (m : p.Metadata) (s : p.Store)
      → ((p.delete client k m s).0 ≡ none)
        ⊎ ((t : String) × ((p.delete client k m s).0 ≡ some (does_not_exist t)))
      → (t : String) × ((p.delete client k m (p.delete client k m s).1).0 ≡ some (does_not_exist t))

module _ (p : Platform) (words : Words) (args : Args) where
  report-IsQuiet : (res : CommandResults p) → IsQuiet (report words res)
  unfolding report report_count report_handled
  report-IsQuiet res w = ground arith

  -- How the command that reports the results ends, and the system that it leaves.
  manage_after :
      (w w' : World p.Store) (res : CommandResults p)
      → execute_config_command p args action_delete w ≡ (returned res, w')
      → ((manage p action_delete words args w).0 ≡ status res.err)
        × ((manage p action_delete words args w).1.system ≡ w'.system)
  unfolding manage
  manage_after w w' res ran = (
    manage-status p words args action_delete w w' res ran,
    rw (ran, manage) (report-IsQuiet res w'),
  )

  -- How the command ends after the client has returned.
  abbrev ended : Option Error → Outcome (Unit {0})
  ended none = returned tt
  ended (some e) = if skippable args e then returned tt else exited 1

  status-ended :
      (client : p.Client) (k : ResourceKind) (o : p.Object) (s : p.Store) (r : Option Error)
      → (p.delete client k (p.metadata o) s).0 ≡ r
      → status (error_left p args action_delete (client_call p action_delete client k o s).0)
        ≡ ended r
  status-ended client k o s none is = rw is refl
  status-ended client k o s (some e) is = elim (Bool-cases (skippable args e)) [
    | inl skipped ↦ rw is (rw skipped refl)
    | inr kept ↦ rw is (rw kept refl)
  ]

  -- Without --skip-exists, only a resource that does not exist is skipped.
  was_gone :
      (r : Option Error)
      → args "--skip-exists" ≡ nil
      → ended r ≡ returned tt
      → (r ≡ none) ⊎ ((t : String) × (r ≡ some (does_not_exist t)))
  was_gone none unset ends = inl refl
  was_gone (some (does_not_exist t)) unset ends = inr (t, refl)
  was_gone (some (already_exists t)) unset ends =
      let stops : ended (some (already_exists t)) ≡ exited 1 = rw (unset, is_set) refl in
      absurd (ground arith)
  was_gone (some (other t)) unset ends = absurd (ground arith)

  module _ (c : HasConstructors p) (fields : HasFields p) (gone : Forgets p)
      (n : NamesResource args) (unset : args "--skip-exists" ≡ nil) where
    again :
        (client : p.Client) (k : ResourceKind) (o : p.Object) (w w' : World p.Store)
        → CallsOnce p args action_delete client k o
        → manage p action_delete words args w ≡ (returned tt, w')
        → (manage p action_delete words args w').0
          ≡ (if is_set args "--skip-not-exists" then returned tt else exited 1)
    again client k o w w' once done =
        let (res, ran, left) = once w in
        let (ends, system) = manage_after w _ res ran in
        let returns : ended (p.delete client k (p.metadata o) w.system).0 ≡ returned tt =
          sym (status-ended client k o w.system _ refl)
          ∙ ap status (sym left)
          ∙ sym ends
          ∙ ap (λ x. x.0) done in
        let (t, missing) =
          gone.stays_gone client k (p.metadata o) w.system (was_gone _ unset returns) in
        let same : (p.delete client k (p.metadata o) w.system).1 ≡ w'.system =
          sym system ∙ ap (λ x. x.1.system) done in
        let (res', ran', left') = once w' in
        let (ends', _) = manage_after w' _ res' ran' in
        ends'
        ∙ ap status left'
        ∙ status-ended client k o w'.system (some (does_not_exist t)) (
            subst (λ s. (p.delete client k (p.metadata o) s).0 ≡ some (does_not_exist t)) same
              missing)

    -- Where the API's constructors give a struct its type and the assignments to its fields keep it,
    -- and what the client has deleted, or has not found, does not exist for it afterwards: if
    -- `delete` of a named resource, without a flag that it does not have, has returned, then the
    -- same command run next returns if --skip-not-exists is given, and exits with the status 1 if not.
    pub manage-again :
        (w w' : World p.Store)
        → manage p action_delete words args w ≡ (returned tt, w')
        → (manage p action_delete words args w').0
          ≡ (if is_set args "--skip-not-exists" then returned tt else exited 1)
    manage-again w w' done = elim (execute_config_command-once p args action_delete c fields n) [
      | inl (e, early) ↦
          let (res, ran, fails) = early w in
          let (ends, _) = manage_after w w res ran in
          let stops : (manage p action_delete words args w).0 ≡ exited 1 = ends ∙ ap status fails in
          absurd (ground arith)
      | inr (client, k, o, once) ↦ again client k o w w' once done
    ]
