-- ===== src/Platform.antt =====
-- What calicoctl calls and does not implement: the API structs, the client and the datastore of
-- libcalico-go, the YAML decoder, the validator and the files. It is a parameter of the model.
use operations_calico_contai.Base.{String, ◌≡◌, Bool, Option, List}
use operations_calico_contai.Base.Result.{Error, Result}

-- `unversioned.TypeMetadata`
pub record TypeMetadata : Type 0 where
  pub kind : String
  pub api_version : String

-- The resources of the API that the resource manager registers.
pub data ResourceKind : Type 0 where
  node host_endpoint workload_endpoint profile policy ip_pool bgp_peer : ResourceKind

-- The struct types that implement `unversioned.Resource`: `api.Node`, `api.NodeList` and so on.
pub data StructType : Type 0 where
  element : ResourceKind → StructType
  list : ResourceKind → StructType
  foreign : StructType

-- `scope.Scope`
pub data Scope : Type 0 where
  undefined global per_node : Scope

pub record Platform : Type 1 where
  -- A value of one of the API structs, and its `Metadata` field.
  pub Object : Type 0
  pub Metadata : Type 0
  pub Cidr : Type 0
  pub Ip : Type 0
  pub Bytes : Type 0
  pub ClientConfig : Type 0
  pub Client : Type 0
  -- The contents of the datastore.
  pub Store : Type 0
  -- `GetTypeMetadata()`, `.Metadata`, `reflect.TypeOf`, and `FieldByName("Items")`, which is `none`
  -- for a struct that has no such field.
  pub type_metadata : Object → TypeMetadata
  pub metadata : Object → Metadata
  pub struct_type : Object → StructType
  pub items : Object → Option (List Object)
  -- `api.NewNode()` and the like, `reflect.New`, and the assignments to fields.
  pub new : StructType → Object
  pub zero_struct : StructType → Object
  pub set_type_metadata : TypeMetadata → Object → Object
  pub set_name : String → Object → Object
  pub set_node : String → Object → Object
  pub set_orchestrator : String → Object → Object
  pub set_workload : String → Object → Object
  pub set_cidr : Cidr → Object → Object
  pub set_peer_ip : Ip → Object → Object
  pub set_scope : Scope → Object → Object
  pub parse_cidr : String → Result Cidr
  pub unmarshal_ip : String → Result Ip
  -- `yaml.Unmarshal` into a `TypeMetadata`, a slice of them, a struct and a slice of structs.
  pub unmarshal_metadata : Bytes → Result TypeMetadata
  pub unmarshal_metadatas : Bytes → Result (List TypeMetadata)
  pub unmarshal_into : Bytes → Object → Result Object
  pub unmarshal_into_slice : Bytes → List Object → Result (List Object)
  pub validate : Object → Option Error
  -- `yaml.Marshal` of the resources that the debug log shows, and whether that log is on.
  pub marshal : List Object → Result String
  pub debug : Bool
  pub read_stdin : Result Bytes
  pub read_file : String → Result Bytes
  -- `os.Stat` finds the file; `client.LoadClientConfig` and `client.New`.
  pub exists : String → Bool
  pub load_config : String → Result ClientConfig
  pub connect : ClientConfig → Result Client
  -- `client.Nodes().Apply(&r)` and the like.
  pub apply : Client → ResourceKind → Object → Store → Result Object × Store
  pub create : Client → ResourceKind → Object → Store → Result Object × Store
  pub update : Client → ResourceKind → Object → Store → Result Object × Store
  pub delete : Client → ResourceKind → Metadata → Store → Option Error × Store
  pub list : Client → ResourceKind → Metadata → Store → Result Object × Store

-- The `Kind` that a struct type is given by its constructor, in the API's version 1.
abbrev pub kind_name : ResourceKind → String
kind_name node = "node"
kind_name host_endpoint = "hostEndpoint"
kind_name workload_endpoint = "workloadEndpoint"
kind_name profile = "profile"
kind_name policy = "policy"
kind_name ip_pool = "ipPool"
kind_name bgp_peer = "bgpPeer"

abbrev pub list_name : ResourceKind → String
list_name node = "nodeList"
list_name host_endpoint = "hostEndpointList"
list_name workload_endpoint = "workloadEndpointList"
list_name profile = "profileList"
list_name policy = "policyList"
list_name ip_pool = "ipPoolList"
list_name bgp_peer = "bgpPeerList"

abbrev pub element_metadata : ResourceKind → TypeMetadata
element_metadata k = record { kind = kind_name k; api_version = "v1" }

abbrev pub list_metadata : ResourceKind → TypeMetadata
list_metadata k = record { kind = list_name k; api_version = "v1" }

-- What the constructors of the API promise: the type and the type metadata of a new struct.
pub record HasConstructors (p : Platform) : Type 0 where
  pub metadata_of_element :
      (k : ResourceKind) → p.type_metadata (p.new (element k)) ≡ element_metadata k
  pub metadata_of_list : (k : ResourceKind) → p.type_metadata (p.new (list k)) ≡ list_metadata k
  pub type_of_new : (t : StructType) → p.struct_type (p.new t) ≡ t

-- An assignment to a field of `Metadata` leaves the type and the type metadata alone.
abbrev pub KeepsType : (p : Platform) → (p.Object → p.Object) → Type 0
KeepsType p f =
    (o : p.Object)
    → (p.type_metadata (f o) ≡ p.type_metadata o) × (p.struct_type (f o) ≡ p.struct_type o)

pub record HasFields (p : Platform) : Type 0 where
  pub name : (s : String) → KeepsType p (p.set_name s)
  pub node : (s : String) → KeepsType p (p.set_node s)
  pub orchestrator : (s : String) → KeepsType p (p.set_orchestrator s)
  pub workload : (s : String) → KeepsType p (p.set_workload s)
  pub cidr : (c : p.Cidr) → KeepsType p (p.set_cidr c)
  pub peer_ip : (a : p.Ip) → KeepsType p (p.set_peer_ip a)
  pub scope : (s : Scope) → KeepsType p (p.set_scope s)
