-- ===== src/Resources/Convert/Laws.antt =====
-- What a slice of resources is converted to, and when the conversion panics.
use mathlib.Core.List.{map-append}
use operations_calico_contai.Base.{
  ◌≡◌, ◌≢◌, refl, inl, inr, true, none, some, List, [], ◌∷◌, ◌++◌, map, any, All, Bool-cases,
  Option-cases, if◌then◌else◌,
}
use operations_calico_contai.Base.Outcome.{returned, panicked}
use operations_calico_contai.Platform.{Platform}
use operations_calico_contai.Manager.{struct, pointer}
use operations_calico_contai.Resources.Convert.{
  slice_of, elements, is_list_kind, items_of, convert_to_slice_of_resources,
}

module _ (p : Platform) where
  -- A struct whose kind is a list has items.
  abbrev pub HasItems : p.Object → Type 0
  HasItems o = is_list_kind p o ≡ true → p.items o ≢ none

  -- The items of a list, and a resource itself otherwise.
  abbrev pub expand : List p.Object → List p.Object
  expand [] = []
  expand (o ∷ os) =
      (if is_list_kind p o then elim (p.items o) [ none ↦ [] | some items ↦ items ] else o ∷ [])
      ++ expand os

  pub items_of-some :
      (o : p.Object) {items : List p.Object}
      → p.items o ≡ some items
      → items_of p o ≡ returned (map struct items)
  unfolding items_of
  items_of-some o e = rw (e, items_of)

  -- A slice of pointers to structs, of which those whose kind is a list have items, is
  -- converted to structs, the items of the lists among them in the place of the lists, in the
  -- order of the slice.
  pub convert-pointers :
      (os : List p.Object)
      → All HasItems os
      → convert_to_slice_of_resources p (slice_of (elements (map pointer os)))
        ≡ returned (map struct (expand os))
  unfolding convert_to_slice_of_resources
  convert-pointers [] h = refl
  convert-pointers (o ∷ os) (h, hs) = elim (Bool-cases (is_list_kind p o)) [
    | inr single ↦ rw (single, convert-pointers os hs)
    | inl many ↦ elim (Option-cases (p.items o)) [
      | inl nothing ↦ absurd (h many nothing)
      | inr (items, found) ↦
          rw (many, items_of-some o found, convert-pointers os hs, found, map-append)
    ]
  ]

  -- A slice of structs is converted to itself, unless the kind of one of them is a list: then
  -- the conversion panics.
  pub convert-structs :
      (os : List p.Object)
      → convert_to_slice_of_resources p (slice_of (elements (map struct os)))
        ≡ (if any (is_list_kind p) os then panicked else returned (map struct os))
  unfolding convert_to_slice_of_resources
  convert-structs [] = refl
  convert-structs (o ∷ os) = elim (Bool-cases (is_list_kind p o)) [
    | inl many ↦ rw many
    | inr single ↦ elim (Bool-cases (any (is_list_kind p) os)) [
      | inl later ↦ rw (single, later) (rw (convert-structs os) (rw later))
      | inr no_list ↦ rw (single, no_list) (rw (convert-structs os) (rw no_list))
    ]
  ]
