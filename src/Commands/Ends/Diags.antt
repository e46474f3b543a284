-- ===== src/Commands/Ends/Diags.antt =====
-- The collection of diagnostics.
use operations_calico_contai.Base.{
  String, ◌<>◌, ◌≢◌, refl, Option, none, some, List, [], ◌∷◌, All, arith,
}
use operations_calico_contai.Base.Dict.{lookup}
use operations_calico_contai.Base.Text.Split.{fields}
use operations_calico_contai.Base.Result.{Error, Result, ok, err, message}
use operations_calico_contai.Base.Proc.{Proc, exit, call, lift, print, println, ◌>>=◌, ◌>>◌}
use operations_calico_contai.Base.Proc.Ends.{EndsWell, bind-EndsWell, then-EndsWell, lift-EndsWell}
use operations_calico_contai.Args.{Args, must_string}
use operations_calico_contai.Args.Reads.{must_string-Ends}
use operations_calico_contai.Commands.Node.Host.{Host, enforce_root}
use operations_calico_contai.Commands.Node.Diags.{
  Collector, DiagCmd, diag_cmds, join_path, write_diags, write_all, copy_logs, compress, collect,
  enter, run_diags,
}
use operations_calico_contai.Commands.Ends.Checksystem.{enforce_root-EndsWell}
use operations_calico_contai.Commands.Usage.Texts.Node.{diags_lines}
use operations_calico_contai.Commands.Usage.Declared.{declared}
use operations_calico_contai.Commands.Usage.Follows.{Follows, has_kind}

-- The command has a word.
abbrev HasWords : DiagCmd → Type 0
HasWords d = fields d.cmd ≢ []

diag_cmds-HasWords : All HasWords diag_cmds
unfolding fields
diag_cmds-HasWords = ground arith

module _ {S : Type 0} (h : Host S) (c : Collector S) where
  write_diags-EndsWell :
      (d : DiagCmd) (dir : String) → HasWords d → EndsWell (write_diags h c d dir)
  unfolding write_diags
  write_diags-EndsWell d dir words w = ground (arith, words)

  write_all-EndsWell :
      (ds : List DiagCmd) (dir : String) → All HasWords ds → EndsWell (write_all h c ds dir)
  unfolding write_all
  write_all-EndsWell [] dir words = λ w. tt
  write_all-EndsWell (d ∷ ds) dir (words, others) =
      bind-EndsWell (write_diags h c d dir) (λ _. write_all h c ds dir)
        (write_diags-EndsWell d dir words) (λ _. write_all-EndsWell ds dir others)

  copy_logs-EndsWell : (from to : String) → EndsWell (copy_logs h c from to)
  unfolding copy_logs
  copy_logs-EndsWell from to w = ground arith

  compress-EndsWell : (dir : String) → EndsWell (compress h c dir)
  unfolding compress
  compress-EndsWell dir w = ground arith

  enter-EndsWell :
      (log_dir tmp_dir : String) (e : Option Error) → EndsWell (enter h c log_dir tmp_dir e)
  unfolding enter collect
  enter-EndsWell log_dir tmp_dir (some e) = λ w. refl
  enter-EndsWell log_dir tmp_dir none =
      let dir = join_path tmp_dir "diagnostics" in
      let logs = copy_logs h c log_dir (join_path dir "logs") in
      then-EndsWell (call (λ s. (tt {0}, c.mkdir "diagnostics" s)))
        (write_all h c diag_cmds dir >> (logs >> compress h c tmp_dir)) (λ w. tt)
        (then-EndsWell (write_all h c diag_cmds dir) (logs >> compress h c tmp_dir)
          (write_all-EndsWell diag_cmds dir diag_cmds-HasWords)
          (then-EndsWell logs (compress h c tmp_dir)
            (copy_logs-EndsWell log_dir (join_path dir "logs")) (compress-EndsWell tmp_dir)))

  -- What follows the creation of the directory.
  abbrev from_dir : String → Result String → Proc S (Unit {0})
  from_dir log_dir r = elim r [
    | err e ↦ do print ("Error creating temp directory to dump logs: " <> message e <> "\n"); exit 1
    | ok tmp_dir ↦ do
      println ("Using temp dir: " <> tmp_dir)
      failure ← call (c.chdir tmp_dir)
      enter h c log_dir tmp_dir failure
  ]

  from_dir-EndsWell : (log_dir : String) (r : Result String) → EndsWell (from_dir log_dir r)
  from_dir-EndsWell log_dir (err e) w = refl
  from_dir-EndsWell log_dir (ok tmp_dir) w =
      enter-EndsWell log_dir tmp_dir (c.chdir tmp_dir w.system).0 _

  run_diags-EndsWell : (log_dir : String) → EndsWell (run_diags h c log_dir)
  unfolding run_diags
  run_diags-EndsWell log_dir =
      then-EndsWell (enforce_root h)
        (println "Collecting diagnostics" >> (call c.temp_dir >>= from_dir log_dir))
        (enforce_root-EndsWell h)
        (then-EndsWell (println "Collecting diagnostics") (call c.temp_dir >>= from_dir log_dir)
          (λ w. tt)
          (bind-EndsWell (call c.temp_dir) (from_dir log_dir) (λ w. tt)
            (from_dir-EndsWell log_dir)))

  -- With the arguments that docopt gives for its usage text.
  pub collect_for-EndsWell :
      (args : Args)
      → Follows args diags_lines
      → EndsWell (do log_dir ← lift (must_string args "--log-dir"); run_diags h c log_dir)
  unfolding declared lookup diags_lines
  collect_for-EndsWell args f =
      bind-EndsWell (lift (must_string args "--log-dir")) (run_diags h c)
        (lift-EndsWell _ (must_string-Ends args "--log-dir" (has_kind f "--log-dir" refl)))
        run_diags-EndsWell
