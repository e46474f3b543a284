-- ===== src/Manager/Registrations.antt =====
-- calicoctl/resourcemgr/{bgppeer,hostendpoint,ippool,node,policy,profile,workloadendpoint}.go: the
-- table columns and the functions that each `init` registers, in the order in which Go runs them.
use operations_calico_contai.Base.{String, none, List, [], ◌∷◌}
use operations_calico_contai.Base.Dict.{Dict}
use operations_calico_contai.Platform.{
  Platform, ResourceKind, element, list, node, host_endpoint, workload_endpoint, profile, policy,
  ip_pool, bgp_peer,
}
use operations_calico_contai.Manager.{
  Helpers, register_resource, apply_as, create_as, update_as, delete_as, list_as,
}

-- The default headings, the wide ones, and the Go template of each column.
pub record Columns : Type 0 where
  pub narrow : List String
  pub wide : List String
  pub templates : Dict String

-- bgppeer.go
abbrev pub bgp_peer_columns : Columns
bgp_peer_columns = record {
  narrow = "SCOPE" ∷ "PEERIP" ∷ "HOSTNAME" ∷ "ASN" ∷ [];
  wide = "SCOPE" ∷ "PEERIP" ∷ "HOSTNAME" ∷ "ASN" ∷ [];
  templates =
      ("SCOPE", "{{.Metadata.Scope}}")
      ∷ ("PEERIP", "{{.Metadata.PeerIP}}")
      ∷ ("NODE", "{{.Metadata.Node}}")
      ∷ ("ASN", "{{.Spec.ASNumber}}")
      ∷ [];
}

-- hostendpoint.go
abbrev pub host_endpoint_columns : Columns
host_endpoint_columns = record {
  narrow = "NODE" ∷ "NAME" ∷ [];
  wide = "NODE" ∷ "NAME" ∷ "INTERFACE" ∷ "IPS" ∷ "PROFILES" ∷ [];
  templates =
      ("NODE", "{{.Metadata.Node}}")
      ∷ ("NAME", "{{.Metadata.Name}}")
      ∷ ("INTERFACE", "{{.Spec.InterfaceName}}")
      ∷ ("IPS", "{{join .Spec.ExpectedIPs \",\"}}")
      ∷ ("PROFILES", "{{join .Spec.Profiles \",\"}}")
      ∷ [];
}

-- ippool.go
abbrev pub ip_pool_columns : Columns
ip_pool_columns = record {
  narrow = "CIDR" ∷ [];
  wide = "CIDR" ∷ "NAT" ∷ "IPIP" ∷ [];
  templates =
      ("CIDR", "{{.Metadata.CIDR}}")
      ∷ ("NAT", "{{.Spec.NATOutgoing}}")
      ∷ ("IPIP", "{{if .Spec.IPIP}}{{.Spec.IPIP.Enabled}}{{else}}false{{end}}")
      ∷ [];
}

-- node.go
abbrev pub node_columns : Columns
node_columns = record {
  narrow = "NAME" ∷ [];
  wide = "NAME" ∷ "ASN" ∷ "IPV4" ∷ "IPV6" ∷ [];
  templates =
      ("NAME", "{{.Metadata.Name}}")
      ∷ ("ASN", "{{if .Spec.BGP}}{{if .Spec.BGP.ASNumber}}{{.Spec.BGP.ASNumber}}{{end}}{{end}}")
      ∷ (
        "IPV4",
        "{{if .Spec.BGP}}{{if .Spec.BGP.IPv4Address}}{{.Spec.BGP.IPv4Address}}{{end}}{{end}}",
      )
      ∷ (
        "IPV6",
        "{{if .Spec.BGP}}{{if .Spec.BGP.IPv6Address}}{{.Spec.BGP.IPv6Address}}{{end}}{{end}}",
      )
      ∷ [];
}

-- policy.go
abbrev pub policy_columns : Columns
policy_columns = record {
  narrow = "NAME" ∷ [];
  wide = "NAME" ∷ "ORDER" ∷ "SELECTOR" ∷ [];
  templates =
      ("NAME", "{{.Metadata.Name}}")
      ∷ ("ORDER", "{{.Spec.Order}}")
      ∷ ("SELECTOR", "{{.Spec.Selector}}")
      ∷ [];
}

-- profile.go
abbrev pub profile_columns : Columns
profile_columns = record {
  narrow = "NAME" ∷ [];
  wide = "NAME" ∷ "TAGS" ∷ [];
  templates = ("NAME", "{{.Metadata.Name}}") ∷ ("TAGS", "{{join .Spec.Tags \",\"}}") ∷ [];
}

-- workloadendpoint.go
abbrev pub workload_endpoint_columns : Columns
workload_endpoint_columns = record {
  narrow = "NODE" ∷ "ORCHESTRATOR" ∷ "WORKLOAD" ∷ "NAME" ∷ [];
  wide =
      "NODE" ∷ "ORCHESTRATOR" ∷ "WORKLOAD" ∷ "NAME" ∷ "NETWORKS" ∷ "NATS" ∷ "INTERFACE" ∷ "PROFILES"
      ∷ [];
  templates =
      ("NODE", "{{.Metadata.Node}}")
      ∷ ("ORCHESTRATOR", "{{.Metadata.Orchestrator}}")
      ∷ ("WORKLOAD", "{{.Metadata.Workload}}")
      ∷ ("NAME", "{{.Metadata.Name}}")
      ∷ ("NETWORKS", "{{join .Spec.IPNetworks \",\"}}")
      ∷ ("NATS", "{{join .Spec.IPNATs \",\"}}")
      ∷ ("IPV4GATEWAY", "{{.Spec.IPv4Gateway}}")
      ∷ ("IPV6GATEWAY", "{{.Spec.IPv4Gateway}}")
      ∷ ("PROFILES", "{{join .Spec.Profiles \",\"}}")
      ∷ ("INTERFACE", "{{.Spec.InterfaceName}}")
      ∷ ("MAC", "{{.Spec.MAC}}")
      ∷ [];
}

abbrev pub columns : ResourceKind → Columns
columns bgp_peer = bgp_peer_columns
columns host_endpoint = host_endpoint_columns
columns ip_pool = ip_pool_columns
columns node = node_columns
columns policy = policy_columns
columns profile = profile_columns
columns workload_endpoint = workload_endpoint_columns

module _ (p : Platform) where
  unfoldable pub init_bgp_peer : Helpers p → Helpers p
  unfolding register_resource
  init_bgp_peer =
      register_resource p (p.new (element bgp_peer)) (p.new (list bgp_peer)) bgp_peer_columns.narrow
        bgp_peer_columns.wide bgp_peer_columns.templates (apply_as p bgp_peer)
        (create_as p bgp_peer) (update_as p bgp_peer) (delete_as p bgp_peer) (list_as p bgp_peer)

  unfoldable pub init_host_endpoint : Helpers p → Helpers p
  unfolding register_resource
  init_host_endpoint =
      register_resource p (p.new (element host_endpoint)) (p.new (list host_endpoint))
        host_endpoint_columns.narrow host_endpoint_columns.wide host_endpoint_columns.templates
        (apply_as p host_endpoint) (create_as p host_endpoint) (update_as p host_endpoint)
        (delete_as p host_endpoint) (list_as p host_endpoint)

  unfoldable pub init_ip_pool : Helpers p → Helpers p
  unfolding register_resource
  init_ip_pool =
      register_resource p (p.new (element ip_pool)) (p.new (list ip_pool)) ip_pool_columns.narrow
        ip_pool_columns.wide ip_pool_columns.templates (apply_as p ip_pool) (create_as p ip_pool)
        (update_as p ip_pool) (delete_as p ip_pool) (list_as p ip_pool)

  unfoldable pub init_node : Helpers p → Helpers p
  unfolding register_resource
  init_node =
      register_resource p (p.new (element node)) (p.new (list node)) node_columns.narrow
        node_columns.wide node_columns.templates (apply_as p node) (create_as p node)
        (update_as p node) (delete_as p node) (list_as p node)

  unfoldable pub init_policy : Helpers p → Helpers p
  unfolding register_resource
  init_policy =
      register_resource p (p.new (element policy)) (p.new (list policy)) policy_columns.narrow
        policy_columns.wide policy_columns.templates (apply_as p policy) (create_as p policy)
        (update_as p policy) (delete_as p policy) (list_as p policy)

  unfoldable pub init_profile : Helpers p → Helpers p
  unfolding register_resource
  init_profile =
      register_resource p (p.new (element profile)) (p.new (list profile)) profile_columns.narrow
        profile_columns.wide profile_columns.templates (apply_as p profile) (create_as p profile)
        (update_as p profile) (delete_as p profile) (list_as p profile)

  unfoldable pub init_workload_endpoint : Helpers p → Helpers p
  unfolding register_resource
  init_workload_endpoint =
      register_resource p (p.new (element workload_endpoint)) (p.new (list workload_endpoint))
        workload_endpoint_columns.narrow workload_endpoint_columns.wide
        workload_endpoint_columns.templates (apply_as p workload_endpoint)
        (create_as p workload_endpoint) (update_as p workload_endpoint)
        (delete_as p workload_endpoint) (list_as p workload_endpoint)

  -- The map after all the `init` functions.
  unfoldable pub registered : Helpers p
  registered = init_workload_endpoint (
      init_profile
        (init_policy (init_node (init_ip_pool (init_host_endpoint (init_bgp_peer (λ t. none)))))))
