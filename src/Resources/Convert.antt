-- ===== src/Resources/Convert.antt =====
-- convertToSliceOfResources
pub mod Laws
use operations_calico_contai.Base.{
  String, Bool, none, some, List, [], ◌∷◌, ◌++◌, map, if◌then◌else◌,
}
use operations_calico_contai.Base.Text.{has_suffix}
use operations_calico_contai.Base.Outcome.{Outcome, returned, panicked, ◌>>=◌}
use operations_calico_contai.Platform.{Platform}
use operations_calico_contai.Manager.{Resource, struct, pointer}

-- The `interface{}` that is converted, by the kind of its type.
mutual
  pub data Loaded (O : Type 0) : Type 0 where
    slice_of : Elements O → Loaded O
    struct_of : O → Loaded O
    pointer_to : O → Loaded O
    unhandled : Loaded O

  pub data Elements (O : Type 0) : Type 0 where
    nil : Elements O
    cons : Loaded O → Elements O → Elements O

-- A resource, and a slice of resources, as an `interface{}`.
abbrev pub loaded : {O : Type 0} → Resource O → Loaded O
loaded (struct o) = struct_of o
loaded (pointer o) = pointer_to o

abbrev pub elements : {O : Type 0} → List (Resource O) → Elements O
elements [] = nil
elements (r ∷ rs) = cons (loaded r) (elements rs)

module _ (p : Platform) where
  -- The test on the name of the kind.
  unfoldable pub is_list_kind : p.Object → Bool
  unfolding has_suffix
  is_list_kind o = has_suffix (p.type_metadata o).kind "List"

  -- Each of the struct's items. Without a field of that name the zero value panics.
  unfoldable pub items_of : p.Object → Outcome (List (Resource p.Object))
  items_of o = elim (p.items o) [ none ↦ panicked | some os ↦ returned (map struct os) ]

  unfoldable mutual
    unfolding is_list_kind items_of

    -- `reflect.Value.Elem` of a struct panics, so a list must come as a pointer.
    pub convert_to_slice_of_resources : Loaded p.Object → Outcome (List (Resource p.Object))
    convert_to_slice_of_resources (slice_of xs) = convert_elements xs
    convert_to_slice_of_resources (struct_of o) =
        if is_list_kind o then panicked else returned (struct o ∷ [])
    convert_to_slice_of_resources (pointer_to o) =
        if is_list_kind o then items_of o else returned (struct o ∷ [])
    convert_to_slice_of_resources unhandled = panicked

    pub convert_elements : Elements p.Object → Outcome (List (Resource p.Object))
    convert_elements nil = returned []
    convert_elements (cons x xs) = do
      r ← convert_to_slice_of_resources x
      rest ← convert_elements xs
      returned (r ++ rest)
