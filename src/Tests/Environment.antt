-- ===== src/Tests/Environment.antt =====
-- Arguments, a host, a configuration and the other parameters of the commands, for the platform in
-- memory.
use operations_calico_contai.Base.{
  String, refl, Bool, true, false, Option, none, some, List, [], ◌∷◌, ◌==◌, if◌then◌else◌,
}
use operations_calico_contai.Base.Result.{ok, err, other}
use operations_calico_contai.Base.Proc.{World}
use operations_calico_contai.Args.{Args, nil, text, flag}
use operations_calico_contai.Args.Validate.{Parsers}
use operations_calico_contai.Platform.{element, list, node, ip_pool}
use operations_calico_contai.Commands.Config.{ConfigInterface, at_node, at_global}
use operations_calico_contai.Commands.Config.Laws.{IsLawful}
use operations_calico_contai.Commands.Get.{Encoders}
use operations_calico_contai.Commands.Ipam.{IpamInterface}
use operations_calico_contai.Commands.Dispatch.{Environment}
use operations_calico_contai.Commands.Usage.{nothing}
use operations_calico_contai.Commands.Node.Host.{Host}
use operations_calico_contai.Commands.Node.Diags.{Collector}
use operations_calico_contai.Commands.Node.Status.{Sockets}
use operations_calico_contai.Commands.Node.Run.Validation.{Settings, EtcdConfig, Backend}
use operations_calico_contai.Tests.Sample.{Document, document, sample}

abbrev pub start : World (List String)
start = record { stdout = []; system = "n1" ∷ [] }

-- `calicoctl delete node n1`, with a configuration file and with or without --skip-not-exists.
abbrev pub delete_args : String → Bool → Args
delete_args config skip name =
    if name == "<KIND>"
    then text "node"
    else if name == "<NAME>"
    then text "n1"
    else if name == "--config"
    then text config
    else if name == "--skip-not-exists"
    then flag skip
    else nil

-- `calicoctl node run --name=n1`, dry or not.
abbrev pub run_args : Bool → Args
run_args dry name =
    if name == "--name"
    then text "n1"
    else if name == "--backend"
    then text "bird"
    else if name == "--config"
    then text "calicoctl.cfg"
    else if name == "--dryrun"
    then flag dry
    else nil

-- `calicoctl ipam release --ip=10.0.0.1`
abbrev pub release_args : Args
release_args name =
    if name == "--ip" then text "10.0.0.1" else if name == "--config" then text "c" else nil

abbrev pub node_document : Document
node_document = document (element node) "n1"

abbrev pub pools : Document
pools = record (document (list ip_pool) "") { members = "a" ∷ "b" ∷ [] }

abbrev pub parsers : Parsers
parsers = record {
  Ip = String;
  AsNumber = String;
  parse_ip = λ s. if s == "10.0.0.1" then some s else none;
  version = λ ip. 4;
  show_ip = λ ip. ip;
  as_number_from_string = λ s. ok s;
}

-- A host on which the user is root and calicoctl runs in a container.
abbrev pub host : Host (List String)
host = record {
  uid = 0;
  getenv = λ name. "yes";
  hostname = ok "n1";
  run = λ cmd s. (none, "started" ∷ s);
  write_file = λ path contents s. (none, s);
  stat = λ path s. false;
  output = λ cmd s. ok "4.4.0\n";
  read_lines = λ path s. some ("kernel/net/netfilter/xt_set.ko:" ∷ []);
  at_least = λ v w. true;
  range = λ m. m;
}

-- The key and the certificate are in one file.
abbrev pub etcd : EtcdConfig
etcd = record {
  endpoints = "http://10.0.0.1:2379";
  authority = "";
  scheme = "";
  ca_cert_file = "ca.crt";
  key_file = "both.pem";
  cert_file = "both.pem";
}

abbrev pub backend : Backend sample
backend = record { is_etcd = λ cfg. true; etcd_config = λ cfg. some etcd }

abbrev pub settings : Settings
settings = record {
  ipv4 = "";
  ipv6 = "";
  log_dir = "/var/log/calico";
  as_number = "";
  img = "calico/node";
  backend = "bird";
  dryrun = false;
  name = "n1";
  nopools = false;
  config = "calicoctl.cfg";
}

pub record Configuration : Type 0 where
  pub level : String
  pub node_level : Option String
  pub mesh : Bool
  pub ipip : Bool
  pub as_number : String

abbrev pub configuration : Configuration
configuration = record {
  level = "info";
  node_level = some "info";
  mesh = true;
  ipip = false;
  as_number = "64511";
}

abbrev pub config_client : ConfigInterface Configuration
config_client = record {
  AsNumber = String;
  set_global_log_level = λ v s. (none, record s { level = v });
  get_global_log_level = λ s. (ok s.level, s);
  set_node_log_level = λ n v s. (none, record s { node_level = some v });
  set_node_log_level_use_global = λ n s. (none, record s { node_level = none });
  get_node_log_level =
      λ n s. (ok (elim s.node_level [ none ↦ (s.level, at_global) | some v ↦ (v, at_node) ]), s);
  set_node_to_node_mesh = λ b s. (none, record s { mesh = b });
  get_node_to_node_mesh = λ s. (ok s.mesh, s);
  set_global_ipip = λ b s. (none, record s { ipip = b });
  get_global_ipip = λ s. (ok s.ipip, s);
  set_global_as_number = λ n s. (none, record s { as_number = n });
  get_global_as_number = λ s. (ok s.as_number, s);
  as_number_from_string = λ s. ok s;
  show_as_number = λ n. n;
  default_log_level = "info";
  default_node_to_node_mesh = true;
  default_ipip = false;
  default_as_number = "64511";
}

pub config_client-IsLawful : IsLawful config_client
config_client-IsLawful = record {
  global_log_level = λ v s h. refl;
  node_log_level = λ n v s h. refl;
  node_to_node_mesh = λ b s h. refl;
  global_ipip = λ b s h. refl;
  global_as_number = λ n s h. refl;
}

abbrev pub ipam_client : String → IpamInterface (List String) parsers
ipam_client client = record {
  release_ips = λ ips s. (ok [], "released" ∷ s);
  get_assignment_attributes = λ ip s. (ok [], s);
  show_attributes = λ attr. "";
}

abbrev pub encoders : Encoders sample
encoders = record {
  marshal_indent = λ os. ok "[]";
  Template = String;
  parse = λ s. ok s;
  execute = λ t rs. ("", none);
  execute_table = λ t r. ("", none);
  read_template = λ f. err (other "no such file");
  order = λ l. l;
}

abbrev pub sockets : Sockets (List String)
sockets = record {
  Conn = String;
  processes = λ s. (ok [], s);
  dial = λ path s. (err (other "no socket"), s);
  write = λ c t s. (none, s);
  read = λ c s. (("", none), s);
  render = λ header rows. "";
}

-- Every command that is run fails.
abbrev pub collector : Collector (List String)
collector = record {
  temp_dir = λ s. (ok "/tmp/calico1", s);
  chdir = λ dir s. (none, s);
  mkdir = λ dir s. s;
  output = λ cmd s. (("", some (other "exit status 1")), s);
  is_dir = λ path s. ok true;
  copy_tree = λ from to s. (none, s);
  timestamp = λ s. "20170101_000000";
}

abbrev pub environment : Environment sample
environment = record {
  docopt = λ usage argv. nothing;
  is_level = λ level. false;
  version = "";
  build_date = "";
  git_revision = "";
  parsers = parsers;
  config_client = λ c. no_config;
  ipam_client = ipam_client;
  encoders = encoders;
  host = host;
  backend = backend;
  sockets = sockets;
  collector = collector;
}
  where
    no_config : ConfigInterface (List String)
    no_config = record {
      AsNumber = String;
      set_global_log_level = λ v s. (none, s);
      get_global_log_level = λ s. (ok "", s);
      set_node_log_level = λ n v s. (none, s);
      set_node_log_level_use_global = λ n s. (none, s);
      get_node_log_level = λ n s. (ok ("", at_node), s);
      set_node_to_node_mesh = λ b s. (none, s);
      get_node_to_node_mesh = λ s. (ok true, s);
      set_global_ipip = λ b s. (none, s);
      get_global_ipip = λ s. (ok true, s);
      set_global_as_number = λ n s. (none, s);
      get_global_as_number = λ s. (ok "", s);
      as_number_from_string = λ s. ok s;
      show_as_number = λ n. n;
      default_log_level = "info";
      default_node_to_node_mesh = true;
      default_ipip = false;
      default_as_number = "64511";
    }
