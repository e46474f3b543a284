-- ===== src/Manager/Tables/Defaults.antt =====
-- The default headings that each kind of resource is registered with.
use operations_calico_contai.Base.{
  String, ◌≡◌, ◌∙◌, ◌⊎◌, inl, inr, refl, Bool, true, false, Option, none, some, List,
}
use operations_calico_contai.Base.Dict.{lookup}
use operations_calico_contai.Platform.{
  Platform, ResourceKind, HasConstructors, element_metadata, list_metadata, node, bgp_peer,
}
use operations_calico_contai.Manager.{Resource, metadata_of, get_resource_manager}
use operations_calico_contai.Manager.Registrations.{columns, registered}
use operations_calico_contai.Manager.Laws.{
  element_helper, list_helper, get_resource_manager-element, get_resource_manager-list,
}
use operations_calico_contai.Manager.Tables.{get_table_template, get_table_default_headings}
use operations_calico_contai.Manager.Tables.Laws.{
  first_unknown, table_text, verdict, get_table_template-eq,
}

-- The one default heading that has no template.
abbrev pub bad_heading : ResourceKind → Option String
bad_heading bgp_peer = some "HOSTNAME"
bad_heading _ = none

narrow_ok :
    (k : ResourceKind) → first_unknown (columns k).templates (columns k).narrow ≡ bad_heading k
unfolding lookup
narrow_ok node = refl
narrow_ok k = refl

wide_ok : (k : ResourceKind) → first_unknown (columns k).templates (columns k).wide ≡ bad_heading k
unfolding lookup
wide_ok node = refl
wide_ok k = refl

module _ {p : Platform} (c : HasConstructors p) (order : List String → List String) where
  default_element :
      (k : ResourceKind) (wide : Bool)
      → let rm = element_helper p k in
        get_table_template order rm (get_table_default_headings rm wide)
        ≡ verdict order rm.headings_map
            (bad_heading k)
            (table_text false rm.headings_map (get_table_default_headings rm wide))
  unfolding get_table_default_headings
  default_element k true = get_table_template-eq order (element_helper p k) _ ∙ rw (wide_ok k)
  default_element k false = get_table_template-eq order (element_helper p k) _ ∙ rw (narrow_ok k)

  default_list :
      (k : ResourceKind) (wide : Bool)
      → let rm = list_helper p k in
        get_table_template order rm (get_table_default_headings rm wide)
        ≡ verdict order rm.headings_map
            (bad_heading k)
            (table_text true rm.headings_map (get_table_default_headings rm wide))
  unfolding get_table_default_headings
  default_list k true = get_table_template-eq order (list_helper p k) _ ∙ rw (wide_ok k)
  default_list k false = get_table_template-eq order (list_helper p k) _ ∙ rw (narrow_ok k)

  -- Where the API's constructors give a struct its type, the default table, narrow or wide, of
  -- a resource with the type metadata of a kind or of its list has a template, the row of
  -- headings and the row of their templates, for every kind but BGP peers, for which it is an
  -- error on the heading HOSTNAME.
  pub get_table_template-default :
      (k : ResourceKind) (r : Resource p.Object) (wide : Bool)
      → (metadata_of p r ≡ element_metadata k) ⊎ (metadata_of p r ≡ list_metadata k)
      → let rm = get_resource_manager p (registered p) r in
        get_table_template order rm (get_table_default_headings rm wide)
        ≡ verdict order rm.headings_map
            (bad_heading k)
            (table_text rm.is_list rm.headings_map (get_table_default_headings rm wide))
  get_table_template-default k r wide (inl e) =
      rw (get_resource_manager-element p c k r e) (default_element k wide)
  get_table_template-default k r wide (inr e) =
      rw (get_resource_manager-list p c k r e) (default_list k wide)
