-- ===== src/Commands/Config/Unset.antt =====
-- The configuration options: unset and get.
use mathlib.Core.Path.{subst}
use operations_calico_contai.Base.{String, sym, ◌≡◌, ◌⊎◌, inl, inr, refl, none, some, arith, eq_iff}
use operations_calico_contai.Base.Text.{to_lower}
use operations_calico_contai.Base.Outcome.{returned}
use operations_calico_contai.Base.Proc.{World}
use operations_calico_contai.Commands.Config.{
  ConfigInterface, ConfigType, nowhere, show_level, show_switch, globally, loglevel, nodemesh, ipip,
  asnum, config_type,
}
use operations_calico_contai.Commands.Config.Laws.{IsLawful, Prints, call-Prints}

module _ {S : Type 0} (c : ConfigInterface S) where
  -- The text of the default value of the option.
  abbrev pub IsDefault : String → String → Type 0
  IsDefault name line =
      ((to_lower name ≡ "loglevel") × (line ≡ c.default_log_level))
      ⊎ (((to_lower name ≡ "nodetonodemesh") × (line ≡ show_switch c.default_node_to_node_mesh))
          ⊎ (((to_lower name ≡ "asnumber") × (line ≡ c.show_as_number c.default_as_number))
              ⊎ ((to_lower name ≡ "ipip") × (line ≡ show_switch c.default_ipip))))

  abbrev Unsets : ConfigType S → String → Type 0
  Unsets t line = (w w' : World S) → t.unset "" w ≡ (returned none, w') → Prints (t.get "") w' line

  named :
      (name : String) {t : ConfigType S}
      → config_type c name ≡ some t
      → ((to_lower name ≡ "loglevel") × (t ≡ loglevel c))
        ⊎ (((to_lower name ≡ "nodetonodemesh") × (t ≡ nodemesh c))
            ⊎ (((to_lower name ≡ "asnumber") × (t ≡ asnum c))
                ⊎ ((to_lower name ≡ "ipip") × (t ≡ ipip c))))
  unfolding config_type
  named name h = ground (
    arith,
    eq_iff (to_lower name) "loglevel",
    eq_iff (to_lower name) "nodetonodemesh",
    eq_iff (to_lower name) "asnumber",
    eq_iff (to_lower name) "ipip",
  )

  of_same : {t u : ConfigType S} (line : String) → t ≡ u → Unsets u line → Unsets t line
  of_same line same unsets = subst (λ t. Unsets t line) (sym same) unsets

  module _ (lawful : IsLawful c) where
    loglevel-Unsets : Unsets (loglevel c) c.default_log_level
    unfolding loglevel
    loglevel-Unsets =
        call-Prints (λ s. show_level (s, nowhere)) c.default_log_level
          (c.set_global_log_level c.default_log_level) c.get_global_log_level
          (lawful.global_log_level c.default_log_level)

    nodemesh-Unsets : Unsets (nodemesh c) (show_switch c.default_node_to_node_mesh)
    unfolding nodemesh globally
    nodemesh-Unsets =
        call-Prints show_switch c.default_node_to_node_mesh
          (c.set_node_to_node_mesh c.default_node_to_node_mesh) c.get_node_to_node_mesh
          (lawful.node_to_node_mesh c.default_node_to_node_mesh)

    asnum-Unsets : Unsets (asnum c) (c.show_as_number c.default_as_number)
    unfolding asnum globally
    asnum-Unsets =
        call-Prints c.show_as_number c.default_as_number
          (c.set_global_as_number c.default_as_number) c.get_global_as_number
          (lawful.global_as_number c.default_as_number)

    ipip-Unsets : Unsets (ipip c) (show_switch c.default_ipip)
    unfolding ipip globally
    ipip-Unsets =
        call-Prints show_switch c.default_ipip (c.set_global_ipip c.default_ipip) c.get_global_ipip
          (lawful.global_ipip c.default_ipip)

    -- With a client that gives back the values that it has set, if an option was unset for no node
    -- and without an error, then getting it for no node prints the text of its default value, and
    -- returns no error.
    pub config_type-unset_get :
        (name : String) {t : ConfigType S} (w w' : World S)
        → config_type c name ≡ some t
        → t.unset "" w ≡ (returned none, w')
        → (line : String) × IsDefault name line × Prints (t.get "") w' line
    config_type-unset_get name {t} w w' h ran = elim (named name h) [
      | inl (is, same) ↦ (_, inl (is, refl), of_same _ same loglevel-Unsets w w' ran)
      | inr (inl (is, same)) ↦ (_, inr (inl (is, refl)), of_same _ same nodemesh-Unsets w w' ran)
      | inr (inr (inl (is, same))) ↦
          (_, inr (inr (inl (is, refl))), of_same _ same asnum-Unsets w w' ran)
      | inr (inr (inr (is, same))) ↦
          (_, inr (inr (inr (is, refl))), of_same _ same ipip-Unsets w w' ran)
    ]
