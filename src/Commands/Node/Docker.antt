-- ===== src/Commands/Node/Docker.antt =====
-- The environment and the mounts of the container, and the command that starts it.
pub mod Laws
pub mod Command
use operations_calico_contai.Base.{
  String, ◌<>◌, Bool, true, false, ◌||◌, Option, none, some, List, [], ◌∷◌, ◌++◌, ◌==◌,
  if◌then◌else◌,
}
use operations_calico_contai.Base.Dict.{Dict, insert}
use operations_calico_contai.Commands.Node.Host.{Host}
use operations_calico_contai.Commands.Node.Run.Validation.{Settings, EtcdConfig}

abbrev pub etcd_key_node_file : String
etcd_key_node_file = "/etc/calico/certs/key.pem"

abbrev pub etcd_cert_node_file : String
etcd_cert_node_file = "/etc/calico/certs/cert.crt"

abbrev pub etcd_ca_cert_node_file : String
etcd_ca_cert_node_file = "/etc/calico/certs/ca_cert.crt"

-- The literal of `envs`.
abbrev pub first_envs : Settings → String → Dict String
first_envs s name =
    ("HOSTNAME", name)
    ∷ ("IP", s.ipv4)
    ∷ ("IP6", s.ipv6)
    ∷ ("CALICO_NETWORKING_BACKEND", s.backend)
    ∷ ("AS", s.as_number)
    ∷ ("NO_DEFAULT_POOLS", if s.nopools then "true" else "")
    ∷ ("CALICO_LIBNETWORK_ENABLED", "true")
    ∷ []

-- An assignment under a test.
unfoldable pub insert_if : Bool → String → String → Dict String → Dict String
unfolding insert
insert_if b k v m = if b then insert k v m else m

unfoldable pub endpoint_envs : EtcdConfig → Dict String → Dict String
unfolding insert
endpoint_envs etcd m =
    if etcd.endpoints == ""
    then insert "ETCD_ENDPOINTS" ""
        (insert "ETCD_SCHEME" etcd.scheme (insert "ETCD_AUTHORITY" etcd.authority m))
    else insert "ETCD_SCHEME" ""
        (insert "ETCD_AUTHORITY" "" (insert "ETCD_ENDPOINTS" etcd.endpoints m))

-- The tests on the files of the etcd configuration.
unfoldable pub has_ca : EtcdConfig → Bool
has_ca etcd = if etcd.ca_cert_file == "" then false else true

unfoldable pub has_key_pair : EtcdConfig → Bool
has_key_pair etcd = if (etcd.key_file == "") || (etcd.cert_file == "") then false else true

unfoldable pub envs : Settings → String → EtcdConfig → Dict String
unfolding insert_if endpoint_envs has_ca has_key_pair
envs s name etcd = insert_if (has_key_pair etcd) "ETCD_CERT_FILE" etcd_cert_node_file (
    insert_if (has_key_pair etcd) "ETCD_KEY_FILE" etcd_key_node_file (
      insert_if (has_ca etcd) "ETCD_CA_CERT_FILE" etcd_ca_cert_node_file
        (endpoint_envs etcd (first_envs s name))))

-- The literal of `vols`. The log directory, whose text is not known, may be one of the other paths;
-- the literal gives it "/var/log/calico" first, and a path that is written twice its last value.
unfoldable pub first_vols : Settings → Dict String
unfolding insert
first_vols s = insert "/var/run/docker.sock" "/var/run/docker.sock" (
    insert "/run/docker/plugins" "/run/docker/plugins" (
      insert "/lib/modules" "/lib/modules"
        (insert "/var/run/calico" "/var/run/calico" ((s.log_dir, "/var/log/calico") ∷ []))))

unfoldable pub vols : Settings → EtcdConfig → Dict String
unfolding insert_if first_vols has_ca has_key_pair
vols s etcd = insert_if (has_key_pair etcd) etcd.cert_file etcd_cert_node_file (
    insert_if (has_key_pair etcd) etcd.key_file etcd_key_node_file
      (insert_if (has_ca etcd) etcd.ca_cert_file etcd_ca_cert_node_file (first_vols s)))

-- The two loops over the maps.
unfoldable pub flags : String → String → List (String × String) → List String
flags option sep [] = []
flags option sep ((k, v) ∷ m) = option ∷ (k <> sep <> v) ∷ flags option sep m

unfoldable pub docker_command : {S : Type 0} → Host S → Settings → String → EtcdConfig → List String
unfolding envs vols flags
docker_command h s name etcd =
    ("docker" ∷ "run" ∷ "-d" ∷ "--net=host" ∷ "--privileged" ∷ "--name=calico-node" ∷ [])
    ++ (flags "-e" "=" (h.range (envs s name etcd))
        ++ (flags "-v" ":" (h.range (vols s etcd)) ++ (s.img ∷ [])))
