-- ===== src/Manager.antt =====
-- calicoctl/resourcemgr/resourcemgr.go: the helpers that are registered for each type of resource,
-- the resources that a file holds, and the untyped actions.
pub mod Registrations
pub mod Tables
pub mod Files
pub mod Laws
use mathlib.Core.Logic.{ite}
use operations_calico_contai.Base.{
  String, ◌<>◌, Bool, true, false, ◌&&◌, Option, none, some, List, [], ◌==◌, if◌then◌else◌,
}
use operations_calico_contai.Base.Result
use operations_calico_contai.Base.Result.{Result, ok, err, other}
use operations_calico_contai.Base.Dict.{Dict}
use operations_calico_contai.Base.Outcome.{Outcome, returned, panicked}
use operations_calico_contai.Base.Proc.{Proc, pure, panic, lift, call, ◌>>=◌}
use operations_calico_contai.Platform.{Platform, TypeMetadata, ResourceKind, StructType, element}

-- `unversioned.Resource`: an interface that holds a struct, or a pointer to one.
pub data Resource (O : Type 0) : Type 0 where
  struct : O → Resource O
  pointer : O → Resource O

abbrev pub object : {O : Type 0} → Resource O → O
object (struct o) = o
object (pointer o) = o

unfoldable pub StructType-discrete : Discrete StructType
StructType-discrete = hlevel

-- `==` on the key of the helpers
unfoldable pub same_metadata : TypeMetadata → TypeMetadata → Bool
same_metadata a b = (a.kind == b.kind) && (a.api_version == b.api_version)

module _ (p : Platform) where
  -- ResourceActionCommand
  abbrev pub Command : Type 0
  Command = p.Client → Resource p.Object → Proc p.Store (Result (Option (Resource p.Object)))

  -- `resource.(api.Node)` and the like: a pointer, or another struct, makes it panic.
  unfoldable pub assert_struct : ResourceKind → Resource p.Object → Outcome p.Object
  assert_struct k (struct o) =
      ite (StructType-discrete (p.struct_type o) (element k)) (returned o) panicked
  assert_struct k (pointer o) = panicked

  -- The type metadata of a resource, through a pointer too.
  abbrev pub metadata_of : Resource p.Object → TypeMetadata
  metadata_of r = p.type_metadata (object r)

pub record ResourceHelper (p : Platform) : Type 0 where
  pub type_metadata : TypeMetadata
  pub resource_type : StructType
  pub table_headings : List String
  pub table_headings_wide : List String
  pub headings_map : Dict String
  pub is_list : Bool
  -- `none` is a nil function.
  pub apply : Option (Command p)
  pub create : Option (Command p)
  pub update : Option (Command p)
  pub delete : Option (Command p)
  pub list : Option (Command p)

module _ (p : Platform) where
  -- `helpers`, the global map; a nil map reads as one with no key.
  abbrev pub Helpers : Type 0
  Helpers = TypeMetadata → Option (ResourceHelper p)

  -- `helpers[tmd] = rh`
  unfoldable pub assign : TypeMetadata → ResourceHelper p → Helpers → Helpers
  assign tmd rh helpers t = if same_metadata t tmd then some rh else helpers t

  -- registerResource
  unfoldable pub register_resource :
      (res res_list : p.Object) (headings headings_wide : List String) (headings_map : Dict String)
      → (apply create update delete list : Command p) → Helpers
      → Helpers
  unfolding assign
  register_resource res res_list headings headings_wide headings_map apply create update delete list
        helpers =
      let rh : ResourceHelper p = record {
        type_metadata = p.type_metadata res;
        resource_type = p.struct_type res;
        table_headings = headings;
        table_headings_wide = headings_wide;
        headings_map = headings_map;
        is_list = false;
        apply = some apply;
        create = some create;
        update = some update;
        delete = some delete;
        list = some list;
      } in
      let rh_list : ResourceHelper p = record {
        type_metadata = p.type_metadata res_list;
        resource_type = p.struct_type res_list;
        table_headings = headings;
        table_headings_wide = headings_wide;
        headings_map = headings_map;
        is_list = true;
        apply = none;
        create = none;
        update = none;
        delete = none;
        list = none;
      } in
      assign (p.type_metadata res_list) rh_list (assign (p.type_metadata res) rh helpers)

  -- The zero value of the struct, which a missing key reads as. Its type is never looked at.
  abbrev pub zero_helper : ResourceHelper p
  zero_helper = record {
    type_metadata = record { kind = ""; api_version = "" };
    resource_type = StructType.foreign;
    table_headings = [];
    table_headings_wide = [];
    headings_map = [];
    is_list = false;
    apply = none;
    create = none;
    update = none;
    delete = none;
    list = none;
  }

  -- GetResourceManager
  unfoldable pub get_resource_manager : Helpers → Resource p.Object → ResourceHelper p
  get_resource_manager helpers resource = elim (helpers (metadata_of p resource)) [
    | none ↦ zero_helper
    | some rh ↦ rh
  ]

  -- The methods Apply, Create, Update, Delete and List: a call of a nil function panics.
  unfoldable pub run_command : Option (Command p) → Command p
  run_command none client resource = panic
  run_command (some command) client resource = command client resource

  -- The functions that each `init` registers, over the struct type that they assert.
  module _ (k : ResourceKind) where
    unfoldable pub apply_as : Command p
    apply_as client resource = do
      r ← lift (assert_struct p k resource)
      out ← call (p.apply client k r)
      pure (Result.map (λ o. some (pointer o)) out)

    unfoldable pub create_as : Command p
    create_as client resource = do
      r ← lift (assert_struct p k resource)
      out ← call (p.create client k r)
      pure (Result.map (λ o. some (pointer o)) out)

    unfoldable pub update_as : Command p
    update_as client resource = do
      r ← lift (assert_struct p k resource)
      out ← call (p.update client k r)
      pure (Result.map (λ o. some (pointer o)) out)

    unfoldable pub delete_as : Command p
    delete_as client resource = do
      r ← lift (assert_struct p k resource)
      out ← call (p.delete client k (p.metadata r))
      pure (elim out [ none ↦ ok none | some e ↦ err e ])

    unfoldable pub list_as : Command p
    list_as client resource = do
      r ← lift (assert_struct p k resource)
      out ← call (p.list client k (p.metadata r))
      pure (Result.map (λ o. some (pointer o)) out)
