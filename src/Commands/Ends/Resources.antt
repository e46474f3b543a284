-- ===== src/Commands/Ends/Resources.antt =====
-- The first lines of every command, and apply, create, replace and delete.
use operations_calico_contai.Base.{String, ◌≡◌, refl, List, arith}
use operations_calico_contai.Base.Outcome.{Outcome, returned, exited, panicked}
use operations_calico_contai.Base.Proc.{World, Proc}
use operations_calico_contai.Base.Proc.Ends.{Ends, EndsWell, bind-EndsWell}
use operations_calico_contai.Args.{Args}
use operations_calico_contai.Args.Laws.{OfResources}
use operations_calico_contai.Platform.{Platform, HasConstructors, HasFields}
use operations_calico_contai.Manager.Files.Decodes.{HasZero, Decodes}
use operations_calico_contai.Resources.Execute.{Action, CommandResults, execute_config_command}
use operations_calico_contai.Resources.Execute.Total.{Returns}
use operations_calico_contai.Resources.Execute.FromFile.{
  execute_config_command-Returns_for_resources,
}
use operations_calico_contai.Commands.Usage.{Parsed, invalid, nothing, parsed, with_arguments}
use operations_calico_contai.Commands.Manage.{Words, report, manage}

pub with_arguments-EndsWell :
    {S : Type 0} (argv : List String) (answer : Parsed) (command : Args → Proc S (Unit {0}))
    → ((args : Args) → answer ≡ parsed args → EndsWell (command args))
    → EndsWell (with_arguments argv answer command)
unfolding with_arguments
with_arguments-EndsWell argv invalid command ends w = refl
with_arguments-EndsWell argv nothing command ends w = tt
with_arguments-EndsWell argv (parsed args) command ends w = ends args refl w

-- What the API and its decoder promise.
pub record IsTyped (p : Platform) : Type 0 where
  pub constructors : HasConstructors p
  pub fields : HasFields p
  pub zeros : HasZero p
  pub decodes : Decodes p

module _ (p : Platform) where
  report-EndsWell : (words : Words) (results : CommandResults p) → EndsWell (report words results)
  unfolding report
  report-EndsWell words results w = ground arith

  Returns-Ends : {A : Type 0} (r : Outcome A × World p.Store) → Returns p r → Ends r.0
  Returns-Ends (returned a, w) h = tt
  Returns-Ends (exited n, w) h = absurd h
  Returns-Ends (panicked, w) h = h

  pub manage-EndsWell :
      IsTyped p
      → (action : Action) (words : Words) (args : Args) → OfResources args
      → EndsWell (manage p action words args)
  unfolding manage
  manage-EndsWell t action words args g =
      bind-EndsWell (execute_config_command p args action) (report words)
        (λ w. Returns-Ends (execute_config_command p args action w) (
          execute_config_command-Returns_for_resources p t.constructors t.fields t.zeros t.decodes
            args action w g))
        (report-EndsWell words)
