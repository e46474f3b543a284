-- ===== src/Manager/Files/Decodes.antt =====
-- The type of the structs that a file gives.
use operations_calico_contai.Base.{
  String, ◌≡◌, ◌≢◌, ◌⊎◌, ◌∙◌, inl, inr, refl, Option, none, some, List, [], ◌∷◌, map, All, arith,
}
use operations_calico_contai.Base.Result.{Error, Result, ok, err, ◌>>=◌, bind-ok}
use operations_calico_contai.Platform.{
  Platform, TypeMetadata, ResourceKind, StructType, element, list, HasConstructors,
  element_metadata, list_metadata,
}
use operations_calico_contai.Manager.{Resource, pointer, ResourceHelper}
use operations_calico_contai.Manager.Registrations.{registered}
use operations_calico_contai.Manager.Laws.{
  IsKnown, element_helper, list_helper, registered-element, registered-list, registered-IsKnown,
}
use operations_calico_contai.Manager.Files.{
  new_resource, first_invalid, unmarshal_resource, new_resources, unmarshal_slice_of_resources,
  create_resources_from_bytes, create_resources_from_file,
}
use operations_calico_contai.Manager.Files.Laws.{from_file}

module _ (p : Platform) where
  -- A struct of one of the kinds, with the type metadata of the kind.
  abbrev pub IsOwn : p.Object → Type 0
  IsOwn o =
      (k : ResourceKind) × (p.type_metadata o ≡ element_metadata k) × (p.struct_type o ≡ element k)

  abbrev pub IsListOf : p.Object → Type 0
  IsListOf o =
      (k : ResourceKind) × (p.type_metadata o ≡ list_metadata k) × (p.struct_type o ≡ list k)

  abbrev pub IsNew : p.Object → Type 0
  IsNew o = IsOwn o ⊎ IsListOf o

  -- A list has items, which are structs of the kinds.
  abbrev pub IsDecoded : p.Object → Type 0
  IsDecoded o =
      IsOwn o
      ⊎ (IsListOf o × ((items : List p.Object) × (p.items o ≡ some items) × All IsOwn items))

  -- What `reflect.New` and the assignment to the type metadata do.
  pub record HasZero : Type 0 where
    pub type_of_zero : (t : StructType) → p.struct_type (p.zero_struct t) ≡ t
    pub type_of_set :
        (m : TypeMetadata) (o : p.Object)
        → p.struct_type (p.set_type_metadata m o) ≡ p.struct_type o
    pub metadata_of_set :
        (m : TypeMetadata) (o : p.Object) → p.type_metadata (p.set_type_metadata m o) ≡ m

  -- The decoder fills the structs that it is given: they keep their types, and the kinds that the
  -- document names, of the structs and of the items of a list, are those of the types.
  pub record Decodes : Type 0 where
    pub into :
        (b : p.Bytes) (o o' : p.Object) → IsNew o → p.unmarshal_into b o ≡ ok o' → IsDecoded o'
    pub into_slice :
        (b : p.Bytes) (os os' : List p.Object)
        → All IsNew os
        → p.unmarshal_into_slice b os ≡ ok os'
        → All IsDecoded os'

-- The test on the error of the validator.
abbrev accepted : {A : Type 0} → A → Option Error → Result A
accepted a (some e) = err e
accepted a none = ok a

accepted-ok : {A : Type 0} (a : A) (e : Option Error) {b : A} → accepted a e ≡ ok b → b ≡ a
accepted-ok a (some e) h = absurd (ground arith)
accepted-ok a none h = ground arith

module _ {p : Platform} (c : HasConstructors p) (z : HasZero p) where
  new_of :
      (tm : TypeMetadata) (rh : ResourceHelper p) {o : p.Object}
      → registered p tm ≡ some rh
      → new_resource p (registered p) tm ≡ ok o
      → (p.type_metadata o ≡ rh.type_metadata) × (p.struct_type o ≡ rh.resource_type)
  unfolding new_resource
  new_of tm rh {o} found made =
      let same : o ≡ p.set_type_metadata rh.type_metadata (p.zero_struct rh.resource_type) =
        ground arith in
      (rw same (z.metadata_of_set _ _), rw same (z.type_of_set _ _ ∙ z.type_of_zero _))

  new_resource-found :
      (tm : TypeMetadata) {o : p.Object}
      → new_resource p (registered p) tm ≡ ok o
      → registered p tm ≢ none
  unfolding new_resource
  new_resource-found tm made nothing = ground arith

  of_known :
      (tm : TypeMetadata) {o : p.Object}
      → IsKnown p tm
      → new_resource p (registered p) tm ≡ ok o
      → IsNew p o
  of_known tm (k, inl e) made =
      let (m, t) = new_of tm (element_helper p k) (rw e (registered-element p c k)) made in
      inl (k, m, t)
  of_known tm (k, inr e) made =
      let (m, t) = new_of tm (list_helper p k) (rw e (registered-list p c k)) made in inr (k, m, t)

  new_resource-IsNew :
      (tm : TypeMetadata) {o : p.Object} → new_resource p (registered p) tm ≡ ok o → IsNew p o
  new_resource-IsNew tm made =
      of_known tm (registered-IsKnown p c tm (new_resource-found tm made)) made

  new_resources-IsNew :
      (tms : List TypeMetadata) (os : List p.Object)
      → new_resources p (registered p) tms ≡ ok os
      → All (IsNew p) os
  unfolding new_resources
  new_resources-IsNew [] [] made = tt
  new_resources-IsNew [] (o ∷ os) made = absurd (ground arith)
  new_resources-IsNew (tm ∷ tms) os made =
      let (o, first, rest) =
        bind-ok (new_resource p (registered p) tm)
          (λ r. new_resources p (registered p) tms >>= λ rs. ok (r ∷ rs)) made in
      let (rs, others, same) =
        bind-ok (new_resources p (registered p) tms) (λ rs. ok (o ∷ rs)) rest in
      let e : os ≡ o ∷ rs = ground arith in
      rw e (new_resource-IsNew tm first, new_resources-IsNew tms rs others)

  module _ (d : Decodes p) where
    unmarshal_resource-IsDecoded :
        (tm : TypeMetadata) (b : p.Bytes) (os : List p.Object)
        → unmarshal_resource p (registered p) tm b ≡ ok os
        → All (IsDecoded p) os
    unfolding unmarshal_resource
    unmarshal_resource-IsDecoded tm b os made =
        let (fresh, is_new, rest) =
          bind-ok (new_resource p (registered p) tm)
            (λ fresh. p.unmarshal_into b fresh >>= λ unpacked.
              accepted (unpacked ∷ []) (p.validate unpacked))
            made in
        let (unpacked, filled, rest) =
          bind-ok (p.unmarshal_into b fresh)
            (λ unpacked. accepted (unpacked ∷ []) (p.validate unpacked)) rest in
        rw (accepted-ok (unpacked ∷ []) (p.validate unpacked) rest)
          (d.into b fresh unpacked (new_resource-IsNew tm is_new) filled, tt)

    unmarshal_slice-IsDecoded :
        (tms : List TypeMetadata) (b : p.Bytes) (os : List p.Object)
        → unmarshal_slice_of_resources p (registered p) tms b ≡ ok os
        → All (IsDecoded p) os
    unfolding unmarshal_slice_of_resources
    unmarshal_slice-IsDecoded tms b os made =
        let (fresh, are_new, rest) =
          bind-ok (new_resources p (registered p) tms)
            (λ fresh. p.unmarshal_into_slice b fresh >>= λ unpacked.
              accepted unpacked (first_invalid p (registered p) unpacked))
            made in
        let (unpacked, filled, rest) =
          bind-ok (p.unmarshal_into_slice b fresh)
            (λ unpacked. accepted unpacked (first_invalid p (registered p) unpacked)) rest in
        rw (accepted-ok unpacked (first_invalid p (registered p) unpacked) rest)
          (d.into_slice b fresh unpacked (new_resources-IsNew tms fresh are_new) filled)

    of_metadatas :
        (b : p.Bytes) (e : Error) (t : Result (List TypeMetadata)) (os : List p.Object)
        → p.unmarshal_metadata b ≡ err e
        → p.unmarshal_metadatas b ≡ t
        → create_resources_from_bytes p (registered p) b ≡ ok os
        → All (IsDecoded p) os
    unfolding create_resources_from_bytes
    of_metadatas b e (ok tms) os one many made = unmarshal_slice-IsDecoded tms b os (ground arith)
    of_metadatas b e (err x) os one many made = absurd (ground arith)

    of_metadata :
        (b : p.Bytes) (t : Result TypeMetadata) (os : List p.Object)
        → p.unmarshal_metadata b ≡ t
        → create_resources_from_bytes p (registered p) b ≡ ok os
        → All (IsDecoded p) os
    unfolding create_resources_from_bytes
    of_metadata b (ok tm) os one made = unmarshal_resource-IsDecoded tm b os (ground arith)
    of_metadata b (err e) os one made = of_metadatas b e (p.unmarshal_metadatas b) os one refl made

    pub create_resources_from_file-IsDecoded :
        (f : String) (rs : List (Resource p.Object))
        → create_resources_from_file p (registered p) f ≡ ok rs
        → (os : List p.Object) × (rs ≡ map pointer os) × All (IsDecoded p) os
    create_resources_from_file-IsDecoded f rs made =
        let (b, os, parsed, same) = from_file p (registered p) f rs made in
        (os, same, of_metadata b (p.unmarshal_metadata b) os refl parsed)
