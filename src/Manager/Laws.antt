-- ===== src/Manager/Laws.antt =====
-- What the registrations leave in the map.
use operations_calico_contai.Base.{
  String, ◌≡◌, ◌≢◌, ◌⊎◌, inl, inr, refl, ◌∙◌, true, false, none, some, List, arith, eq_iff,
}
use operations_calico_contai.Base.Dict.{Dict}
use operations_calico_contai.Platform.{
  Platform, TypeMetadata, ResourceKind, element, list, node, host_endpoint, workload_endpoint,
  profile, policy, ip_pool, bgp_peer, HasConstructors, element_metadata, list_metadata,
}
use operations_calico_contai.Manager.{
  Resource, metadata_of, get_resource_manager, ResourceHelper, Helpers, Command, register_resource,
  same_metadata, apply_as, create_as, update_as, delete_as, list_as,
}
use operations_calico_contai.Manager.Registrations.{
  columns, registered, init_bgp_peer, init_host_endpoint, init_ip_pool, init_node, init_policy,
  init_profile, init_workload_endpoint,
}

module _ (p : Platform) where
  abbrev pub element_helper : ResourceKind → ResourceHelper p
  element_helper k = record {
    type_metadata = element_metadata k;
    resource_type = element k;
    table_headings = (columns k).narrow;
    table_headings_wide = (columns k).wide;
    headings_map = (columns k).templates;
    is_list = false;
    apply = some (apply_as p k);
    create = some (create_as p k);
    update = some (update_as p k);
    delete = some (delete_as p k);
    list = some (list_as p k);
  }

  abbrev pub list_helper : ResourceKind → ResourceHelper p
  list_helper k = record {
    type_metadata = list_metadata k;
    resource_type = list k;
    table_headings = (columns k).narrow;
    table_headings_wide = (columns k).wide;
    headings_map = (columns k).templates;
    is_list = true;
    apply = none;
    create = none;
    update = none;
    delete = none;
    list = none;
  }

  module _ (c : HasConstructors p) where
    -- Where the API's constructors give a struct its type, the map has, under the type
    -- metadata of each kind, the helper with the columns and the functions of that kind.
    pub registered-element :
        (k : ResourceKind) → registered p (element_metadata k) ≡ some (element_helper k)
    unfolding registered init_bgp_peer init_host_endpoint init_ip_pool init_node init_policy
        init_profile init_workload_endpoint same_metadata
    registered-element node = simp (c.metadata_of_element, c.metadata_of_list, c.type_of_new)
    registered-element k = simp (c.metadata_of_element, c.metadata_of_list, c.type_of_new)

    -- Where the API's constructors give a struct its type, the map has, under the type
    -- metadata of the list of each kind, a helper with the columns of that kind and no
    -- functions.
    pub registered-list : (k : ResourceKind) → registered p (list_metadata k) ≡ some (list_helper k)
    unfolding registered init_bgp_peer init_host_endpoint init_ip_pool init_node init_policy
        init_profile init_workload_endpoint same_metadata
    registered-list node = simp (c.metadata_of_element, c.metadata_of_list, c.type_of_new)
    registered-list k = simp (c.metadata_of_element, c.metadata_of_list, c.type_of_new)

  -- The type metadata of one of the kinds, or of its list.
  abbrev pub IsKnown : TypeMetadata → Type 0
  IsKnown t = (k : ResourceKind) × ((t ≡ element_metadata k) ⊎ (t ≡ list_metadata k))

  register_resource-ne-none :
      (res res_list : p.Object) (narrow wide : List String) (m : Dict String)
      → (apply create update delete find : Command p) (helpers : Helpers p) (t : TypeMetadata)
      → register_resource p res res_list narrow wide m apply create update delete find helpers t
        ≢ none
      → (t ≡ p.type_metadata res) ⊎ (t ≡ p.type_metadata res_list) ⊎ (helpers t ≢ none)
  unfolding register_resource same_metadata
  register_resource-ne-none res res_list narrow wide m apply create update delete find helpers t h =
      ground (
        arith,
        eq_iff t.kind (p.type_metadata res).kind,
        eq_iff t.api_version (p.type_metadata res).api_version,
        eq_iff t.kind (p.type_metadata res_list).kind,
        eq_iff t.api_version (p.type_metadata res_list).api_version,
      )

  -- What the `init` of a kind does.
  abbrev registration : ResourceKind → Helpers p → Helpers p
  registration k =
      register_resource p (p.new (element k)) (p.new (list k)) (columns k).narrow (columns k).wide
        (columns k).templates (apply_as p k) (create_as p k) (update_as p k) (delete_as p k)
        (list_as p k)

  module _ (c : HasConstructors p) where
    -- One registration adds the two keys of its kind and leaves the others as they were.
    register_resource-IsKnown :
        (k : ResourceKind) (narrow wide : List String) (m : Dict String)
        → (apply create update delete find : Command p) (helpers : Helpers p) (t : TypeMetadata)
        → register_resource p
            (p.new (element k))
            (p.new (list k))
            narrow
            wide
            m
            apply
            create
            update
            delete
            find
            helpers
            t
          ≢ none
        → (helpers t ≢ none → IsKnown t)
        → IsKnown t
    register_resource-IsKnown k narrow wide m apply create update delete find helpers t h rest =
        elim (register_resource-ne-none _ _ _ _ _ _ _ _ _ _ helpers t h) [
          | inl e ↦ (k, inl (e ∙ c.metadata_of_element k))
          | inr (inl e) ↦ (k, inr (e ∙ c.metadata_of_list k))
          | inr (inr h') ↦ rest h'
        ]

    init-IsKnown :
        (k : ResourceKind) (helpers : Helpers p) (t : TypeMetadata)
        → registration k helpers t ≢ none
        → (helpers t ≢ none → IsKnown t)
        → IsKnown t
    init-IsKnown k helpers t =
        register_resource-IsKnown k (columns k).narrow (columns k).wide (columns k).templates
          (apply_as p k) (create_as p k) (update_as p k) (delete_as p k) (list_as p k) helpers t

    -- Where the API's constructors give a struct its type, type metadata that has a helper
    -- is that of one of the kinds or of its list.
    pub registered-IsKnown : (t : TypeMetadata) → registered p t ≢ none → IsKnown t
    unfolding registered init_bgp_peer init_host_endpoint init_ip_pool init_node init_policy
        init_profile init_workload_endpoint
    registered-IsKnown t h =
        let first = registration bgp_peer (λ t. none) in
        let second = registration host_endpoint first in
        let third = registration ip_pool second in
        let fourth = registration node third in
        let fifth = registration policy fourth in
        let sixth = registration profile fifth in
        init-IsKnown workload_endpoint sixth t h λ h. init-IsKnown profile fifth t h λ h.
          init-IsKnown policy fourth t h λ h. init-IsKnown node third t h λ h.
            init-IsKnown ip_pool second t h λ h.
              init-IsKnown host_endpoint first t h
                λ h. init-IsKnown bgp_peer (λ t. none) t h λ h. absurd (h refl)

  module _ (c : HasConstructors p) where
    -- The manager of a resource is the one that its type metadata is registered with.
    pub get_resource_manager-element :
        (k : ResourceKind) (r : Resource p.Object)
        → metadata_of p r ≡ element_metadata k
        → get_resource_manager p (registered p) r ≡ element_helper k
    unfolding get_resource_manager
    get_resource_manager-element k r e =
        rw (e, get_resource_manager) (rw (registered-element c k, get_resource_manager))

    pub get_resource_manager-list :
        (k : ResourceKind) (r : Resource p.Object)
        → metadata_of p r ≡ list_metadata k
        → get_resource_manager p (registered p) r ≡ list_helper k
    unfolding get_resource_manager
    get_resource_manager-list k r e =
        rw (e, get_resource_manager) (rw (registered-list c k, get_resource_manager))
