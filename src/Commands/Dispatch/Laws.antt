-- ===== src/Commands/Dispatch/Laws.antt =====
-- main: the test of the log level.
use operations_calico_contai.Base.{String, ◌≡◌, refl, false, arith}
use operations_calico_contai.Base.Outcome.{exited}
use operations_calico_contai.Base.Proc.{World}
use operations_calico_contai.Args.{Args, text, must_string}
use operations_calico_contai.Platform.{Platform}
use operations_calico_contai.Commands.Dispatch.{Environment, check_level, main}

module _ (p : Platform) (env : Environment p) where
  check_level-wrong :
      (args : Args) (level : String) (w : World p.Store)
      → args "--log-level" ≡ text level
      → env.is_level level ≡ false
      → ((check_level p env args w).0 ≡ exited 1) × ((check_level p env args w).1.system ≡ w.system)
  unfolding check_level must_string
  check_level-wrong args level w given wrong = ground arith

  -- A text for --log-level that is not a level ends the process with the status 1, and nothing
  -- is changed.
  pub main-rejects_level :
      (args : Args) (level : String) (w : World p.Store)
      → args "--log-level" ≡ text level
      → env.is_level level ≡ false
      → ((main p env args w).0 ≡ exited 1) × ((main p env args w).1.system ≡ w.system)
  unfolding main
  main-rejects_level args level w given wrong =
      let (ends, keeps) = check_level-wrong args level w given wrong in
      (rw ends refl, rw ends keeps)
