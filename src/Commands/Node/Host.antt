-- ===== src/Commands/Node/Host.antt =====
-- What the node commands call of the operating system, and permissions.go.
use operations_calico_contai.Base.{ℕ, zero, suc, String, Bool, Option, List}
use operations_calico_contai.Base.Dict.{Dict}
use operations_calico_contai.Base.Result.{Error, Result}
use operations_calico_contai.Base.Proc.{Proc, pure, exit, println, ◌>>◌}

pub record Host (S : Type 0) : Type 0 where
  -- `os.Getuid`, `os.Getenv`, `os.Hostname`
  pub uid : ℕ
  pub getenv : String → String
  pub hostname : Result String
  -- `exec.Command(...).Run`, `ioutil.WriteFile`, and `os.Stat`, which finds the file or not.
  pub run : List String → S → Option Error × S
  pub write_file : String → String → S → Option Error × S
  pub stat : String → S → Bool
  -- The outputs of `uname -r` and `lsmod`, which change nothing, and the lines of a file, if it can be
  -- opened, as `ReadLine` gives them.
  pub output : List String → S → Result String
  pub read_lines : String → S → Option (List String)
  -- `goversion.CompareNormalized(v, w, ">=")`
  pub at_least : String → String → Bool
  -- The order in which Go ranges over a map, which it does not promise.
  pub range : Dict String → List (String × String)

-- enforceRoot
unfoldable pub enforce_root : {S : Type 0} → Host S → Proc S (Unit {0})
enforce_root h = elim h.uid [
  | zero ↦ pure tt
  | suc _ ↦ do println "Need super user privilages: Operation not permitted"; exit 1
]
