-- ===== src/Manager/Files/Laws.antt =====
-- What is known of the resources that a file gives.
use operations_calico_contai.Base.{
  String, ◌≡◌, refl, inl, inr, none, List, [], ◌∷◌, map, All, Option-cases, arith, ◌==◌,
  if◌then◌else◌,
}
use operations_calico_contai.Base.Result.{Error, Result, ok, err, ◌>>=◌, bind-ok}
use operations_calico_contai.Platform.{Platform, TypeMetadata}
use operations_calico_contai.Manager.{Resource, pointer, Helpers}
use operations_calico_contai.Manager.Files.{
  unmarshal_resource, first_invalid, unmarshal_slice_of_resources, create_resources_from_bytes,
  create_resources_from_file,
}

module _ (p : Platform) (helpers : Helpers p) where
  -- The resource is behind a pointer, and the validator has no error for it.
  abbrev pub IsValid : Resource p.Object → Type 0
  IsValid r = (o : p.Object) × (r ≡ pointer o) × (p.validate o ≡ none)

  pointers-IsValid :
      (os : List p.Object) → first_invalid p helpers os ≡ none → All IsValid (map pointer os)
  unfolding first_invalid
  pointers-IsValid [] h = tt
  pointers-IsValid (o ∷ os) h = elim (Option-cases (p.validate o)) [
    | inl valid ↦ ((o, refl, valid), pointers-IsValid os (ground arith))
    | inr (e, invalid) ↦ absurd (ground arith)
  ]

  unmarshal_resource-one :
      (tm : TypeMetadata) (b : p.Bytes) {os : List p.Object}
      → unmarshal_resource p helpers tm b ≡ ok os
      → (o : p.Object) × (os ≡ o ∷ []) × (p.validate o ≡ none)
  unfolding unmarshal_resource
  unmarshal_resource-one tm b h = ground arith

  unmarshal_resource-valid :
      (tm : TypeMetadata) (b : p.Bytes) {os : List p.Object}
      → unmarshal_resource p helpers tm b ≡ ok os
      → first_invalid p helpers os ≡ none
  unfolding unmarshal_resource first_invalid
  unmarshal_resource-valid tm b h =
      let (o, same, valid) = unmarshal_resource-one tm b h in
      rw same (rw (valid, first_invalid) refl)

  unmarshal_slice-valid :
      (tml : List TypeMetadata) (b : p.Bytes) {os : List p.Object}
      → unmarshal_slice_of_resources p helpers tml b ≡ ok os
      → first_invalid p helpers os ≡ none
  unfolding unmarshal_slice_of_resources
  unmarshal_slice-valid tml b h = ground arith

  of_metadatas :
      (b : p.Bytes) (e : Error) (t : Result (List TypeMetadata)) {os : List p.Object}
      → p.unmarshal_metadata b ≡ err e
      → p.unmarshal_metadatas b ≡ t
      → create_resources_from_bytes p helpers b ≡ ok os
      → first_invalid p helpers os ≡ none
  unfolding create_resources_from_bytes
  of_metadatas b e (ok tml) one many h = unmarshal_slice-valid tml b (ground arith)
  of_metadatas b e (err x) one many h = absurd (ground arith)

  of_metadata :
      (b : p.Bytes) (t : Result TypeMetadata) {os : List p.Object}
      → p.unmarshal_metadata b ≡ t
      → create_resources_from_bytes p helpers b ≡ ok os
      → first_invalid p helpers os ≡ none
  unfolding create_resources_from_bytes
  of_metadata b (ok tm) one h = unmarshal_resource-valid tm b (ground arith)
  of_metadata b (err e) one h = of_metadatas b e (p.unmarshal_metadatas b) one refl h

  from_bytes-valid :
      (b : p.Bytes) {os : List p.Object}
      → create_resources_from_bytes p helpers b ≡ ok os
      → first_invalid p helpers os ≡ none
  unfolding create_resources_from_bytes
  from_bytes-valid b h = of_metadata b (p.unmarshal_metadata b) refl h

  pub from_file :
      (f : String) (rs : List (Resource p.Object))
      → create_resources_from_file p helpers f ≡ ok rs
      → (b : p.Bytes) × (os : List p.Object) × (create_resources_from_bytes p helpers b ≡ ok os)
        × (rs ≡ map pointer os)
  unfolding create_resources_from_file
  from_file f rs h =
      let (b, _, rest) =
        bind-ok (if f == "-" then p.read_stdin else p.read_file f)
          (λ b. create_resources_from_bytes p helpers b >>= λ rs. ok (map pointer rs)) h in
      let (os, parsed, same) =
        bind-ok (create_resources_from_bytes p helpers b) (λ rs. ok (map pointer rs)) rest in
      (b, os, parsed, ground arith)

  -- Every resource of those that a file gives without an error is a pointer to a struct that
  -- the validator accepts.
  pub create_resources_from_file-IsValid :
      (f : String) (rs : List (Resource p.Object))
      → create_resources_from_file p helpers f ≡ ok rs
      → All IsValid rs
  create_resources_from_file-IsValid f rs h =
      let (b, os, parsed, same) = from_file f rs h in
      rw same (pointers-IsValid os (from_bytes-valid b parsed))
