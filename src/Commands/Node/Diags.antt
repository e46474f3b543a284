-- ===== src/Commands/Node/Diags.antt =====
-- calicoctl/commands/node/diags.go: the collection of diagnostics.
pub mod Laws
use operations_calico_contai.Base.{
  String, ◌<>◌, Bool, true, false, Option, none, some, List, [], ◌∷◌, ◌==◌, if◌then◌else◌,
}
use operations_calico_contai.Base.Text.Split.{fields}
use operations_calico_contai.Base.Result.{Error, Result, ok, err, message}
use operations_calico_contai.Base.Outcome.{returned}
use operations_calico_contai.Base.Proc.{
  Proc, pure, exit, panic, lift, call, print, println, ◌>>=◌, ◌>>◌,
}
use operations_calico_contai.Args.{Args, must_string}
use operations_calico_contai.Commands.Usage.{Parsed, with_arguments}
use operations_calico_contai.Commands.Node.Host.{Host, enforce_root}

-- What the command does to the host beyond the other node commands.
pub record Collector (S : Type 0) : Type 0 where
  -- `ioutil.TempDir("", "calico")`, `os.Chdir` and `os.Mkdir`, whose error is not looked at.
  pub temp_dir : S → Result String × S
  pub chdir : String → S → Option Error × S
  pub mkdir : String → S → S
  -- What the command has written to its output, and its error.
  pub output : List String → S → (String × Option Error) × S
  -- `os.Stat`: whether the path is a directory.
  pub is_dir : String → S → Result Bool
  pub copy_tree : String → String → S → Option Error × S
  -- The current time in the format "20060102_150405".
  pub timestamp : S → String

pub record DiagCmd : Type 0 where
  pub info : String
  pub cmd : String
  pub filename : String

-- `filepath.Join`, of a directory that is not blank and has no slash at its end, such as the
-- temporary one, and a name.
abbrev pub join_path : String → String → String
join_path dir name = dir <> "/" <> name

abbrev diag : String → String → String → DiagCmd
diag i c f = record { info = i; cmd = c; filename = f }

-- The commands, in order.
abbrev pub diag_cmds : List DiagCmd
diag_cmds =
    diag "" "date" "date"
    ∷ diag "" "hostname" "hostname"
    ∷ diag "Dumping netstat" "netstat --all --numeric" "netstat"
    ∷ diag "Dumping routes (IPv4)" "ip -4 route" "ipv4_route"
    ∷ diag "Dumping routes (IPv6)" "ip -6 route" "ipv6_route"
    ∷ diag "Dumping interface info (IPv4)" "ip -4 addr" "ipv4_addr"
    ∷ diag "Dumping interface info (IPv6)" "ip -6 addr" "ipv6_addr"
    ∷ diag "Dumping iptables (IPv4)" "iptables-save" "ipv4_tables"
    ∷ diag "Dumping iptables (IPv6)" "ip6tables-save" "ipv6_tables"
    ∷ diag "Dumping ipsets" "ipset list" "ipsets"
    ∷ diag "Dumping ipsets (container)" "docker run --privileged --net=host calico/node ipset list"
        "ipset_container"
    ∷ diag "Copying journal for calico-node.service" "journalctl -u calico-node.service --no-pager"
        "journalctl_calico_node"
    ∷ diag "Dumping felix stats" "pkill -SIGUSR1 felix" ""
    ∷ []

module _ {S : Type 0} (h : Host S) (c : Collector S) where
  -- An error that is printed and then ignored.
  unfoldable pub note : Option Error → Proc S (Unit {0})
  note none = pure tt
  note (some e) = println (message e)

  unfoldable pub note_as : String → Option Error → Proc S (Unit {0})
  note_as text none = pure tt
  note_as text (some e) = print (text <> message e <> "\n")

  -- The file, unless there is no name for it. A failure to write it is logged and nothing else.
  unfoldable pub save : String → String → String → Proc S (Unit {0})
  save dir filename content =
      if filename == ""
      then pure tt
      else (do _ ← call (h.write_file (join_path dir filename) content); pure tt)

  unfoldable pub announce : String → Proc S (Unit {0})
  announce info = if info == "" then pure tt else println info

  -- writeDiags
  unfoldable pub write_diags : DiagCmd → String → Proc S (Unit {0})
  unfolding fields note save announce
  write_diags d dir = do
    announce d.info
    elim (fields d.cmd) [
      | [] ↦ panic
      | word ∷ words ↦ do
        (content, failure) ← call (c.output (word ∷ words))
        note failure
        save dir d.filename content
    ]

  -- The loop over the commands.
  unfoldable pub write_all : List DiagCmd → String → Proc S (Unit {0})
  unfolding write_diags
  write_all [] dir = pure tt
  write_all (d ∷ ds) dir = do write_diags d dir; write_all ds dir

  -- The logs, if they are a directory.
  unfoldable pub copy_logs : String → String → Proc S (Unit {0})
  unfolding note_as
  copy_logs log_dir tmp_log_dir = do
    found ← (λ w. (returned (c.is_dir log_dir w.system), w))
    elim found [
      | err e ↦ print ("Error copying log files: " <> message e <> "\n")
      | ok true ↦ do
        println "Copying Calico logs"
        failure ← call (c.copy_tree log_dir tmp_log_dir)
        note_as "Error copying log files: " failure
      | ok false ↦ print ("No logs found in " <> log_dir <> "; skipping log copying")
    ]

  -- From the name of the archive to the end.
  unfoldable pub compress : String → Proc S (Unit {0})
  unfolding note_as
  compress tmp_dir = do
    time ← (λ w. (returned (c.timestamp w.system), w))
    let tar_file = "diags-" <> time <> ".tar.gz"
    failure ← call (h.run ("tar" ∷ "-zcvf" ∷ tar_file ∷ "diagnostics" ∷ []))
    note_as "Error compressing the diagnostics: " failure
    let path = join_path tmp_dir tar_file
    print ("\nDiags saved to " <> path <> "\n")
    print (
        "If required, you can upload the diagnostics bundle to a file sharing service \nsuch as transfer.sh using curl or similar.  For example:\n\n    curl --upload-file "
        <> path <> " https://transfer.sh/" <> path)
    println ""

  -- From the directory of the diagnostics on.
  unfoldable pub collect : String → String → Proc S (Unit {0})
  unfolding write_all copy_logs compress
  collect log_dir tmp_dir = do
    call (λ s. (tt {0}, c.mkdir "diagnostics" s))
    let diags = join_path tmp_dir "diagnostics"
    write_all diag_cmds diags
    copy_logs log_dir (join_path diags "logs")
    compress tmp_dir

  unfoldable pub enter : String → String → Option Error → Proc S (Unit {0})
  unfolding collect
  enter log_dir tmp_dir (some e) = do
    print ("Error changing directory to temp directory to dump logs: " <> message e <> "\n")
    exit 1
  enter log_dir tmp_dir none = collect log_dir tmp_dir

  -- runDiags
  unfoldable pub run_diags : String → Proc S (Unit {0})
  unfolding enforce_root enter
  run_diags log_dir = do
    enforce_root h
    println "Collecting diagnostics"
    made ← call c.temp_dir
    elim made [
      | err e ↦ do
        print ("Error creating temp directory to dump logs: " <> message e <> "\n")
        exit 1
      | ok tmp_dir ↦ do
        println ("Using temp dir: " <> tmp_dir)
        failure ← call (c.chdir tmp_dir)
        enter log_dir tmp_dir failure
    ]

  -- Diags
  unfoldable pub diags : List String → Parsed → Proc S (Unit {0})
  unfolding with_arguments run_diags
  diags argv answer =
      with_arguments argv answer
        λ args. do log_dir ← lift (must_string args "--log-dir"); run_diags log_dir
