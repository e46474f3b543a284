-- ===== src/Manager/Files.antt =====
-- calicoctl/resourcemgr/resourcemgr.go: the resources that a file or the standard input holds.
pub mod Laws
pub mod Decodes
use operations_calico_contai.Base.{
  String, ◌<>◌, Option, none, some, List, [], ◌∷◌, map, ◌==◌, if◌then◌else◌,
}
use operations_calico_contai.Base.Result.{Error, Result, ok, err, other, ◌>>=◌}
use operations_calico_contai.Platform.{Platform, TypeMetadata}
use operations_calico_contai.Manager.{Resource, pointer, Helpers}

module _ (p : Platform) (helpers : Helpers p) where
  -- newResource, without the interface that it is wrapped in: the struct is behind a pointer.
  unfoldable pub new_resource : TypeMetadata → Result p.Object
  new_resource tm = elim (helpers tm) [
    | none ↦ err (
        other
          ("Unknown resource type (" <> tm.kind <> ") and/or version (" <> tm.api_version <> ")"))
    | some rh ↦ ok (p.set_type_metadata rh.type_metadata (p.zero_struct rh.resource_type))
  ]

  -- unmarshalResource
  unfoldable pub unmarshal_resource : TypeMetadata → p.Bytes → Result (List p.Object)
  unfolding new_resource
  unmarshal_resource tm b = do
    fresh ← new_resource tm
    unpacked ← p.unmarshal_into b fresh
    elim (p.validate unpacked) [ some e ↦ err e | none ↦ ok (unpacked ∷ []) ]

  -- The loop over the types.
  unfoldable pub new_resources : List TypeMetadata → Result (List p.Object)
  unfolding new_resource
  new_resources [] = ok []
  new_resources (tm ∷ tml) = do r ← new_resource tm; rs ← new_resources tml; ok (r ∷ rs)

  -- The loop over the validator.
  unfoldable pub first_invalid : List p.Object → Option Error
  first_invalid [] = none
  first_invalid (r ∷ rs) = elim (p.validate r) [ some e ↦ some e | none ↦ first_invalid rs ]

  -- unmarshalSliceOfResources
  unfoldable pub unmarshal_slice_of_resources : List TypeMetadata → p.Bytes → Result (List p.Object)
  unfolding new_resources first_invalid
  unmarshal_slice_of_resources tml b = do
    fresh ← new_resources tml
    unpacked ← p.unmarshal_into_slice b fresh
    elim (first_invalid unpacked) [ some e ↦ err e | none ↦ ok unpacked ]

  -- createResourcesFromBytes
  unfoldable pub create_resources_from_bytes : p.Bytes → Result (List p.Object)
  unfolding unmarshal_resource unmarshal_slice_of_resources
  create_resources_from_bytes b = elim (p.unmarshal_metadata b) [
    | ok tm ↦ unmarshal_resource tm b
    | err _ ↦ elim (p.unmarshal_metadatas b) [
      | ok tms ↦ unmarshal_slice_of_resources tms b
      | err e ↦ err e
    ]
  ]

  -- CreateResourcesFromFile. The resources that it returns are pointers.
  unfoldable pub create_resources_from_file : String → Result (List (Resource p.Object))
  unfolding create_resources_from_bytes
  create_resources_from_file f = do
    b ← if f == "-" then p.read_stdin else p.read_file f
    rs ← create_resources_from_bytes b
    ok (map pointer rs)
