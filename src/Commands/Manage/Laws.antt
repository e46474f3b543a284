-- ===== src/Commands/Manage/Laws.antt =====
-- How apply, create, replace and delete end, and what they print, given what their actions returned.
use operations_calico_contai.Base.{
  ℕ, zero, suc, sym, ◌≡◌, ◌≢◌, inl, inr, refl, Option, none, some, false, [], ◌∷◌, ◌++◌, Bool-cases,
  arith,
}
use operations_calico_contai.Base.Result.{Error}
use operations_calico_contai.Base.Outcome.{Outcome, returned, exited}
use operations_calico_contai.Base.Proc.{World}
use operations_calico_contai.Args.{Args}
use operations_calico_contai.Platform.{Platform}
use operations_calico_contai.Resources.Execute.{Action, CommandResults, execute_config_command}
use operations_calico_contai.Resources.Execute.Results.{
  IsConsistent, execute_config_command-IsConsistent,
}
use operations_calico_contai.Commands.Manage.{
  Words, report, report_count, report_handled, where_none_handled, manage,
}

-- How the process ends for an error or none.
abbrev pub status : Option Error → Outcome (Unit {0})
status none = returned tt
status (some e) = exited 1

module _ (p : Platform) (words : Words) where
  report_handled-status :
      (res : CommandResults p) (e : Option Error) (w : World p.Store)
      → (report_handled words res e w).0 ≡ status e
  unfolding report_handled
  report_handled-status res none w = refl
  report_handled-status res (some e) w = refl

  report_count-status :
      (res : CommandResults p) (n : ℕ) (w : World p.Store)
      → (n ≡ 0 → res.err ≢ none)
      → (report_count words res n w).0 ≡ status res.err
  unfolding report_count
  report_count-status res zero w fails = ground (arith, fails refl)
  report_count-status res (suc n) w fails = report_handled-status res res.err w

  some-status : (o : Option Error) → o ≢ none → status o ≡ exited 1
  some-status none h = absurd (h refl)
  some-status (some e) h = refl

  report-status :
      (res : CommandResults p) (w : World p.Store)
      → IsConsistent p res
      → (report words res w).0 ≡ status res.err
  unfolding report
  report-status res w consistent = elim consistent.ending [
    | inl (clean, all_of, some_of, valid) ↦
        rw (valid, report) (report_count-status res res.num_handled w (λ none_handled. omega arith))
    | inr (fails, _) ↦ elim (Bool-cases res.file_invalid) [
      | inl invalid ↦ rw (invalid, report) (sym (some-status res.err fails))
      | inr valid ↦
          rw (valid, report) (report_count-status res res.num_handled w (λ none_handled. fails))
    ]
  ]

  -- An error before the first action, other than that of a file, is reported as an empty file.
  report-early :
      (res : CommandResults p) (w : World p.Store)
      → res.file_invalid ≡ false
      → res.num_resources ≡ 0
      → res.num_handled ≡ 0
      → report words res w
        ≡ (exited 1, record w { stdout = w.stdout ++ ("No resources specified in file\n" ∷ []) })
  unfolding report report_count where_none_handled
  report-early res w valid none_given none_handled =
      rw (valid, report) (rw (none_handled, report_count) (rw none_given refl))

  none_given-fails :
      (res : CommandResults p) → IsConsistent p res → res.num_resources ≡ 0 → res.err ≢ none
  none_given-fails res consistent none_given clean = elim consistent.ending [
    | inl (_, all_of, some_of, _) ↦ omega arith
    | inr (fails, _) ↦ fails clean
  ]

  module _ (args : Args) (action : Action) where
    -- If executeConfigCommand returns its results, then the command that reports them
    -- returns if they have no error, and exits with the status 1 if they have one.
    pub manage-status :
        (w w' : World p.Store) (res : CommandResults p)
        → execute_config_command p args action w ≡ (returned res, w')
        → (manage p action words args w).0 ≡ status res.err
    unfolding manage
    manage-status w w' res ran =
        rw (ran, manage)
          (report-status res w' (execute_config_command-IsConsistent p args action w w' res ran))

    -- If executeConfigCommand returns results with no resources and with a file that is not
    -- invalid, then they have an error, and the command does not print it: it prints that
    -- the file has no resources, and nothing else, and exits with the status 1.
    pub manage-hides_errors :
        (w w' : World p.Store) (res : CommandResults p)
        → execute_config_command p args action w ≡ (returned res, w')
        → res.file_invalid ≡ false
        → res.num_resources ≡ 0
        → (res.err ≢ none)
          × (manage p action words args w ≡ (
            exited 1,
            record w' { stdout = w'.stdout ++ ("No resources specified in file\n" ∷ []) },
          ))
    unfolding manage
    manage-hides_errors w w' res ran valid none_given =
        let consistent = execute_config_command-IsConsistent p args action w w' res ran in
        let bounded = consistent.bounded in
        (
          none_given-fails res consistent none_given,
          rw (ran, manage)
              (report-early res w' valid none_given (omega (arith, bounded, none_given))),
        )
