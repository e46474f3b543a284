-- ===== src/Commands/Node/Run/Validation.antt =====
-- The arguments of `node run`, their validation, and the etcd configuration.
use operations_calico_contai.Base.{
  ℕ, zero, suc, String, ◌<>◌, Bool, true, false, ◌||◌, Option, none, some, ◌==◌, if◌then◌else◌,
}
use operations_calico_contai.Base.Result.{ok, err}
use operations_calico_contai.Base.Outcome
use operations_calico_contai.Base.Outcome.{Outcome, returned}
use operations_calico_contai.Base.Proc.{Proc, pure, exit, panic, print, println, ◌>>=◌, ◌>>◌}
use operations_calico_contai.Args.{Args, arg_string_or_blank, arg_bool_or_false}
use operations_calico_contai.Args.Validate.{Parsers, validate_ip, validate_as_number}
use operations_calico_contai.Platform.{Platform}
use operations_calico_contai.ClientManager.{load_client_config}
use operations_calico_contai.Commands.Node.Host.{Host}

pub record Settings : Type 0 where
  pub ipv4 : String
  pub ipv6 : String
  pub log_dir : String
  pub as_number : String
  pub img : String
  pub backend : String
  pub dryrun : Bool
  pub name : String
  pub nopools : Bool
  pub config : String

-- `etcd.EtcdConfig`
pub record EtcdConfig : Type 0 where
  pub endpoints : String
  pub authority : String
  pub scheme : String
  pub ca_cert_file : String
  pub key_file : String
  pub cert_file : String

-- The test `cfg.BackendType != api.EtcdV2` and the type assertion on `cfg.BackendConfig`, which
-- panics where this is `none`.
pub record Backend (p : Platform) : Type 0 where
  pub is_etcd : p.ClientConfig → Bool
  pub etcd_config : p.ClientConfig → Option EtcdConfig

-- The first lines, which read the arguments.
unfoldable pub read_settings : Args → Outcome Settings
read_settings args = Outcome.◌>>=◌ (arg_string_or_blank args "--ip") λ ipv4.
    Outcome.◌>>=◌ (arg_string_or_blank args "--ip6") λ ipv6.
      Outcome.◌>>=◌ (arg_string_or_blank args "--log-dir") λ log_dir.
        Outcome.◌>>=◌ (arg_string_or_blank args "--as") λ as_number.
          Outcome.◌>>=◌ (arg_string_or_blank args "--node-image") λ img.
            Outcome.◌>>=◌ (arg_string_or_blank args "--backend") λ backend.
              Outcome.◌>>=◌ (arg_bool_or_false args "--dryrun") λ dryrun.
                Outcome.◌>>=◌ (arg_string_or_blank args "--name") λ name.
                  Outcome.◌>>=◌ (arg_bool_or_false args "--no-default-ippools") λ nopools.
                    Outcome.◌>>=◌ (arg_string_or_blank args "--config") λ config. returned (record {
                      ipv4 = ipv4;
                      ipv6 = ipv6;
                      log_dir = log_dir;
                      as_number = as_number;
                      img = img;
                      backend = backend;
                      dryrun = dryrun;
                      name = name;
                      nopools = nopools;
                      config = config;
                    })

abbrev pub is_version : ℕ → ℕ → Bool
is_version zero zero = true
is_version (suc m) (suc n) = is_version m n
is_version _ _ = false

-- The regular expression "^(none|bird|gobgp)$".
abbrev pub is_backend : String → Bool
is_backend s = (s == "none") || ((s == "bird") || (s == "gobgp"))

module _ (n : Parsers) {S : Type 0} where
  -- The check of `--ip` and of `--ip6`.
  unfoldable pub check_ip : String → String → ℕ → Proc S (Unit {0})
  unfolding validate_ip
  check_ip option str v =
      if str == ""
      then pure tt
      else (validate_ip n str >>= λ ip. if is_version (n.version ip) v then pure tt else (do
        println ("Error executing command: " <> option <> " is wrong IP version")
        exit 1))

  unfoldable pub check_as_number : String → Proc S (Unit {0})
  unfolding validate_as_number
  check_as_number str = if str == "" then pure tt else (do _ ← validate_as_number n str; pure tt)

  unfoldable pub check_backend : String → Proc S (Unit {0})
  check_backend str =
      if is_backend str
      then pure tt
      else (do print ("Error executing command: unknown backend '" <> str <> "'\n"); exit 1)

  -- "Validate parameters."
  unfoldable pub validate : Settings → Proc S (Unit {0})
  unfolding check_ip check_as_number check_backend
  validate s = do
    check_ip "--ip" s.ipv4 4
    check_ip "--ip6" s.ipv6 6
    check_as_number s.as_number
    check_backend s.backend

-- "Use the hostname if a name is not specified."
unfoldable pub node_name : {S : Type 0} → Host S → Settings → Proc S String
node_name h s =
    let failed = (do println "Error executing command: unable to determine node name"; exit 1) in
    if s.name == ""
    then elim h.hostname [ err _ ↦ failed | ok name ↦ if name == "" then failed else pure name ]
    else pure s.name

-- "Load the etcd configuraiton."
unfoldable pub load_etcd : (p : Platform) → Backend p → Settings → Proc p.Store EtcdConfig
load_etcd p backend s = elim (load_client_config p s.config) [
  | err _ ↦ do println "Error executing command: invalid config file"; exit 1
  | ok cfg ↦
      if backend.is_etcd cfg
      then elim (backend.etcd_config cfg) [ none ↦ panic | some etcd ↦ pure etcd ]
      else (do println "Error executing command: unsupported backend specified in config"; exit 1)
]
