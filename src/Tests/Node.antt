-- ===== src/Tests/Node.antt =====
-- The commands on the node, at concrete parameters.
use operations_calico_contai.Base.{
  String, ◌≡◌, ◌≢◌, refl, inl, true, some, List, [], ◌∷◌, ◌++◌, All, arith, eq_iff,
}
use operations_calico_contai.Base.Dict.{lookup}
use operations_calico_contai.Base.Outcome.{returned}
use operations_calico_contai.Args.{arg_bool_or_false}
use operations_calico_contai.Commands.Node.Run.{run_node}
use operations_calico_contai.Commands.Node.Run.Laws.{run_node-IsQuiet}
use operations_calico_contai.Commands.Node.Docker.{
  etcd_key_node_file, etcd_cert_node_file, envs, vols, docker_command,
}
use operations_calico_contai.Commands.Node.Docker.Laws.{vols-loses_key}
use operations_calico_contai.Commands.Node.Docker.Command.{Occurs, docker_command-Occurs}
use operations_calico_contai.Commands.Node.Checksystem.{detected, check_system}
use operations_calico_contai.Commands.Node.Checksystem.Laws.{check_system-status}
use operations_calico_contai.Commands.Node.Status.{read_peers}
use operations_calico_contai.Commands.Node.Status.Laws.{IsRow, read_peers-IsRow}
use operations_calico_contai.Commands.Node.Status.Reads.{Reads, read_peers-Reads}
use operations_calico_contai.Base.{◌<>◌, ◌↔◌, ◌⊎◌}
use operations_calico_contai.Base.Text.Laws.{IsPart}
use operations_calico_contai.Commands.Node.Checksystem.Names.{FileNames, detected_iff}
use operations_calico_contai.Tests.Sample.{sample}
use operations_calico_contai.Tests.Environment.{
  start, run_args, parsers, host, etcd, backend, settings,
}

run_node-IsQuiet_example :
    (run_node sample parsers host backend (run_args true) start).1.system ≡ "n1" ∷ []
unfolding arg_bool_or_false
run_node-IsQuiet_example =
    run_node-IsQuiet sample parsers host backend (run_args true) start (inl refl)

docker_command-Occurs_example :
    Occurs "-e" "HOSTNAME=n1" (docker_command host settings "n1" etcd)
    × Occurs "-v" "both.pem:/etc/calico/certs/cert.crt" (docker_command host settings "n1" etcd)
unfolding envs vols lookup
docker_command-Occurs_example =
    docker_command-Occurs host (λ m k. refl) settings "n1" etcd "HOSTNAME" "n1" "both.pem"
      etcd_cert_node_file refl refl

has_key : etcd.key_file ≢ ""
has_key h = ground (arith, eq_iff "both.pem" "")

vols-loses_key_example :
    (lookup "ETCD_KEY_FILE" (envs settings "n1" etcd) ≡ some etcd_key_node_file)
    × (lookup "both.pem" (vols settings etcd) ≢ some etcd_key_node_file)
vols-loses_key_example = vols-loses_key settings etcd "n1" "both.pem" refl has_key

check_system-status_example : (check_system host start).0 ≡ returned tt
unfolding detected
check_system-status_example = check_system-status host "4.4.0\n" "4.4.0\n" start refl refl refl

abbrev row : List String
row = "10.0.0.2" ∷ "node-to-node mesh" ∷ "up" ∷ "10:00:00" ∷ "Established" ∷ []

read_peers-IsRow_example : All IsRow (row ∷ [])
unfolding read_peers
read_peers-IsRow_example =
    read_peers-IsRow "." ("Mesh_10_0_0_2 BGP master up 10:00:00 Established" ∷ []) [] (row ∷ [])
      start start tt refl

read_peers-Reads_example :
    (new : List (List String)) × (row ∷ [] ≡ [] ++ new)
    × Reads "." ("BIRD ready." ∷ "Mesh_10_0_0_2 BGP master up 10:00:00 Established" ∷ []) new
unfolding read_peers
read_peers-Reads_example =
    read_peers-Reads "." ("BIRD ready." ∷ "Mesh_10_0_0_2 BGP master up 10:00:00 Established" ∷ [])
      [] (row ∷ []) start start refl

detected_iff_example : (detected host "4.4.0" "ip6_tables" "xt_set" start.system ≡ true) ↔ (
    FileNames host ("/lib/modules/" <> "4.4.0" <> "/modules.dep") "xt_set" start.system
    ⊎ FileNames host ("/lib/modules/" <> "4.4.0" <> "/modules.builtin") "xt_set" start.system
    ⊎ IsPart "xt_set" "ip6_tables")
detected_iff_example = detected_iff host "4.4.0" "ip6_tables" "xt_set" start.system

abbrev bird_lines : List String
bird_lines = "BIRD ready." ∷ "Mesh_10_0_0_2 BGP master up 10:00:00 Established" ∷ []

abbrev no_rows : List (List String)
no_rows = []
