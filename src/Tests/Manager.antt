-- ===== src/Tests/Manager.antt =====
-- The resource manager, at the platform in memory.
use operations_calico_contai.Base.Dict.{lookup}
use operations_calico_contai.Base.{◌≡◌, ◌≢◌, refl, inr, false, none, some, [], ◌∷◌, All, arith}
use operations_calico_contai.Base.Result.{ok}
use operations_calico_contai.Platform.{list, node, ip_pool, element_metadata, list_metadata}
use operations_calico_contai.Manager.{same_metadata, pointer, get_resource_manager}
use operations_calico_contai.Manager.Registrations.{
  init_ip_pool, init_node, init_policy, init_profile, init_workload_endpoint, registered,
}
use operations_calico_contai.Manager.Laws.{
  element_helper, list_helper, registered-element, registered-list, IsKnown, registered-IsKnown,
}
use operations_calico_contai.Manager.Files.{create_resources_from_file}
use operations_calico_contai.Manager.Files.Laws.{IsValid, create_resources_from_file-IsValid}
use operations_calico_contai.Manager.Tables.{get_table_template, get_table_default_headings}
use operations_calico_contai.Manager.Tables.Laws.{get_table_template-eq}
use operations_calico_contai.Manager.Tables.Defaults.{get_table_template-default}
use operations_calico_contai.Tests.Sample.{document, sample, sample-HasConstructors}
use operations_calico_contai.Tests.Environment.{pools}

registered-element_example :
    registered sample (element_metadata node) ≡ some (element_helper sample node)
registered-element_example = registered-element sample sample-HasConstructors node

is_registered : registered sample (list_metadata node) ≢ none
is_registered h = ground (arith, registered-list_known)
  where
    registered-list_known : registered sample (list_metadata node) ≡ some (list_helper sample node)
    registered-list_known = registered-list sample sample-HasConstructors node

registered-IsKnown_example : IsKnown sample (list_metadata node)
registered-IsKnown_example =
    registered-IsKnown sample sample-HasConstructors (list_metadata node) is_registered

create_resources_from_file-IsValid_example :
    All (IsValid sample (registered sample)) (pointer pools ∷ [])
unfolding create_resources_from_file registered init_workload_endpoint same_metadata init_profile
    init_policy init_node init_ip_pool
create_resources_from_file-IsValid_example =
    create_resources_from_file-IsValid sample (registered sample) "pools.yaml" (pointer pools ∷ [])
      refl

get_table_template-eq_example :
    get_table_template (λ l. l) (element_helper sample node) ("NAME" ∷ [])
    ≡ ok "NAME\t\n{{.Metadata.Name}}\t\n"
unfolding lookup
get_table_template-eq_example =
    get_table_template-eq (λ l. l) (element_helper sample node) ("NAME" ∷ [])

get_table_template-default_example :
    let rm =
      get_resource_manager sample (registered sample) (pointer (document (list ip_pool) "")) in
    get_table_template (λ l. l) rm (get_table_default_headings rm false)
    ≡ ok "CIDR\t\n{{range .Items}}{{.Metadata.CIDR}}\t\n{{end}}"
unfolding get_resource_manager registered init_workload_endpoint same_metadata init_profile
    init_policy init_node init_ip_pool get_table_default_headings lookup
get_table_template-default_example =
    get_table_template-default sample-HasConstructors (λ l. l) ip_pool
      (pointer (document (list ip_pool) "")) false (inr refl)
