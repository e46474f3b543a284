-- ===== src/Tests/Sample.antt =====
-- A platform in memory: the datastore is a list of names, and a file is the struct that it decodes to.
use operations_calico_contai.Base.{
  String, refl, true, false, Option, none, some, List, [], ◌∷◌, map, contains, ◌==◌, if◌then◌else◌,
}
use operations_calico_contai.Base.Result.{Result, ok, err, already_exists, does_not_exist, other}
use operations_calico_contai.Platform.{
  Platform, TypeMetadata, ResourceKind, StructType, element, list, foreign, HasConstructors,
  HasFields, element_metadata, list_metadata,
}

pub record Document : Type 0 where
  pub struct_type : StructType
  pub type_metadata : TypeMetadata
  pub name : String
  pub members : List String

abbrev blank_metadata : StructType → TypeMetadata
blank_metadata (element k) = element_metadata k
blank_metadata (list k) = list_metadata k
blank_metadata foreign = record { kind = ""; api_version = "" }

abbrev pub document : StructType → String → Document
document t n = record { struct_type = t; type_metadata = blank_metadata t; name = n; members = [] }

abbrev members_of : StructType → List String → Option (List Document)
members_of (list k) names = some (map (document (element k)) names)
members_of _ names = none

abbrev pub remove : String → List String → List String
remove s [] = []
remove s (x ∷ xs) = let rest = remove s xs in if x == s then rest else x ∷ rest

abbrev add : Document → List String → Result Document × List String
add o store = (ok o, if contains store o.name then store else o.name ∷ store)

abbrev pub sample : Platform
sample = record {
  Object = Document;
  Metadata = String;
  Cidr = String;
  Ip = String;
  Bytes = Document;
  ClientConfig = String;
  Client = String;
  Store = List String;
  type_metadata = λ o. o.type_metadata;
  metadata = λ o. o.name;
  struct_type = λ o. o.struct_type;
  items = λ o. members_of o.struct_type o.members;
  new = λ t. document t "";
  zero_struct = λ t. document t "";
  set_type_metadata = λ t o. record o { type_metadata = t };
  set_name = λ s o. record o { name = s };
  set_node = λ s o. o;
  set_orchestrator = λ s o. o;
  set_workload = λ s o. o;
  set_cidr = λ s o. record o { name = s };
  set_peer_ip = λ s o. record o { name = s };
  set_scope = λ s o. o;
  parse_cidr = λ s. if s == "10.0.0.0/8" then ok s else err (other "invalid CIDR address");
  unmarshal_ip = λ s. ok s;
  unmarshal_metadata = λ b. ok b.type_metadata;
  unmarshal_metadatas = λ b. err (other "not a list");
  unmarshal_into = λ b o. ok (record o { name = b.name; members = b.members });
  unmarshal_into_slice = λ b os. ok os;
  validate = λ o. none;
  marshal = λ os. ok "";
  debug = false;
  read_stdin = err (other "no input");
  read_file = λ f.
      if f == "pools.yaml"
      then ok (record (document (list ResourceKind.ip_pool) "") { members = "a" ∷ "b" ∷ [] })
      else if f == "node.yaml"
      then ok (document (element ResourceKind.node) "n1")
      else err (other "no such file");
  exists = λ f. true;
  load_config = λ f. ok f;
  connect = λ f. if f == "down" then err (other "no datastore") else ok f;
  apply = λ c k o store. add o store;
  create = λ c k o store.
      if contains store o.name then (err (already_exists o.name), store) else add o store;
  update = λ c k o store.
      if contains store o.name then (ok o, store) else (err (does_not_exist o.name), store);
  delete = λ c k n store.
      if contains store n then (none, remove n store) else (some (does_not_exist n), store);
  list = λ c k n store. (ok (record (document (list k) "") { members = store }), store);
}

pub sample-HasConstructors : HasConstructors sample
sample-HasConstructors = record {
  metadata_of_element = λ k. refl;
  metadata_of_list = λ k. refl;
  type_of_new = λ t. refl;
}

pub sample-HasFields : HasFields sample
sample-HasFields = record {
  name = λ s o. (refl, refl);
  node = λ s o. (refl, refl);
  orchestrator = λ s o. (refl, refl);
  workload = λ s o. (refl, refl);
  cidr = λ s o. (refl, refl);
  peer_ip = λ s o. (refl, refl);
  scope = λ s o. (refl, refl);
}
