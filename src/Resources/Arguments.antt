-- ===== src/Resources/Arguments.antt =====
-- getResourceFromArguments
pub mod Laws
use operations_calico_contai.Base.{
  String, ◌<>◌, Bool, ◌||◌, Option, none, some, ◌==◌, if◌then◌else◌,
}
use operations_calico_contai.Base.Text.{to_lower}
use operations_calico_contai.Base.Result
use operations_calico_contai.Base.Result.{Result, ok, err, other}
use operations_calico_contai.Base.Outcome.{Outcome, returned, panicked, ◌>>=◌}
use operations_calico_contai.Args.{Args, must_string, arg_string_or_blank}
use operations_calico_contai.Platform.{
  Platform, ResourceKind, element, node, host_endpoint, workload_endpoint, profile, policy, ip_pool,
  bgp_peer, Scope, undefined, global, per_node,
}
use operations_calico_contai.Manager.{Resource, struct}

-- The cases of the switch on the lower-cased kind.
unfoldable pub kind_case : String → Option ResourceKind
kind_case s =
    if s == "node" || s == "nodes"
    then some node
    else if s == "hostendpoint" || s == "hostendpoints"
    then some host_endpoint
    else if s == "workloadendpoint" || s == "workloadendpoints"
    then some workload_endpoint
    else if s == "profile" || s == "profiles"
    then some profile
    else if s == "policy" || s == "policies"
    then some policy
    else if s == "ippool" || s == "ippools"
    then some ip_pool
    else if s == "bgppeer" || s == "bgppeers"
    then some bgp_peer
    else none

-- The inner switch, on `--scope`.
unfoldable pub scope_case : String → Result Scope
scope_case s =
    if s == "node"
    then ok per_node
    else if s == "global"
    then ok global
    else if s == ""
    then ok undefined
    else err (other ("Unrecognized scope '" <> s <> "', must be one of: global, node"))

pub record Identifiers : Type 0 where
  pub name : String
  pub on_node : String
  pub workload : String
  pub orchestrator : String
  pub scope : String

module _ (p : Platform) where
  abbrev fresh : ResourceKind → p.Object
  fresh k = p.new (element k)

  -- The body of each case.
  unfoldable pub build : ResourceKind → Identifiers → Result p.Object
  unfolding scope_case
  build node i = ok (p.set_name i.name (fresh node))
  build host_endpoint i = ok (p.set_node i.on_node (p.set_name i.name (fresh host_endpoint)))
  build workload_endpoint i = ok (
      p.set_node i.on_node (
        p.set_workload i.workload
          (p.set_orchestrator i.orchestrator (p.set_name i.name (fresh workload_endpoint)))))
  build profile i = ok (p.set_name i.name (fresh profile))
  build policy i = ok (p.set_name i.name (fresh policy))
  build ip_pool i =
      if i.name == ""
      then ok (fresh ip_pool)
      else Result.map (λ cidr. p.set_cidr cidr (fresh ip_pool)) (p.parse_cidr i.name)
  build bgp_peer i =
      Result.◌>>=◌
        (if i.name == ""
          then ok (fresh bgp_peer)
          else Result.map (λ ip. p.set_peer_ip ip (fresh bgp_peer)) (p.unmarshal_ip i.name))
        (λ peer. Result.map (λ s. p.set_scope s (p.set_node i.on_node peer)) (scope_case i.scope))

  unfoldable pub resource_for : String → Identifiers → Result (Resource p.Object)
  unfolding kind_case build to_lower
  resource_for kind i = elim (kind_case (to_lower kind)) [
    | none ↦ err (other ("Resource type '" <> kind <> "' is not supported"))
    | some k ↦ Result.map struct (build k i)
  ]

  unfoldable pub get_resource_from_arguments : Args → Outcome (Result (Resource p.Object))
  get_resource_from_arguments args = do
    kind ← must_string args "<KIND>"
    name ← arg_string_or_blank args "<NAME>"
    on_node ← arg_string_or_blank args "--node"
    workload ← arg_string_or_blank args "--workload"
    orchestrator ← arg_string_or_blank args "--orchestrator"
    scope ← arg_string_or_blank args "--scope"
    returned (
        resource_for kind (record {
          name = name;
          on_node = on_node;
          workload = workload;
          orchestrator = orchestrator;
          scope = scope;
        }))
