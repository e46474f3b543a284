-- ===== src/Commands/Config/Inherited.antt =====
-- The log level of a node that has none of its own.
use operations_calico_contai.Base.{String, ◌<>◌, ◌≡◌, ◌≢◌, sym, false, none, arith, eq_iff, ◌==◌}
use operations_calico_contai.Base.Result.{ok}
use operations_calico_contai.Base.Outcome.{returned}
use operations_calico_contai.Base.Proc.{World, call}
use operations_calico_contai.Commands.Config.{
  ConfigInterface, nowhere, at_global, show_level, loglevel,
}
use operations_calico_contai.Commands.Config.Laws.{Prints, show_result-Prints}

-- What the client promises of a node whose own log level was unset: as long as the store is as the
-- call has left it, the level of the node is the global one, and is said to be so.
pub record Inherits {S : Type 0} (c : ConfigInterface S) : Type 0 where
  pub node_log_level :
      (node level : String) (s : S)
      → (c.set_node_log_level_use_global node s).0 ≡ none
      → (c.get_global_log_level (c.set_node_log_level_use_global node s).1).0 ≡ ok level
      → (c.get_node_log_level node (c.set_node_log_level_use_global node s).1).0
        ≡ ok (level, at_global)

not_blank : (node : String) → node ≢ "" → (node == "") ≡ false
not_blank node h = ground (arith, eq_iff node "")

module _ {S : Type 0} (c : ConfigInterface S) (h : Inherits c) where
  -- With a client whose nodes inherit the global log level, if the log level of a node was unset
  -- without an error and the client has a global level, then getting the level for no node prints
  -- the global one, and getting it for the node prints it with the words "(inherited from global)".
  pub loglevel-unset_inherits :
      (node level : String) (w w' : World S)
      → node ≢ ""
      → (loglevel c).unset node w ≡ (returned none, w')
      → (c.get_global_log_level w'.system).0 ≡ ok level
      → Prints ((loglevel c).get "") w' level
        × Prints ((loglevel c).get node) w' (level <> " (inherited from global)")
  unfolding loglevel
  loglevel-unset_inherits node level w w' named unset global =
      let apart = not_blank node named in
      let ran : call (c.set_node_log_level_use_global node) w ≡ (returned none, w') =
        ground arith in
      let clean : (c.set_node_log_level_use_global node w.system).0 ≡ none = ground arith in
      let same : w'.system ≡ (c.set_node_log_level_use_global node w.system).1 = ground arith in
      let global_there : (c.get_global_log_level
            (c.set_node_log_level_use_global node w.system).1).0
          ≡ ok level =
        rw (sym same) global in
      (
        show_result-Prints (λ s. show_level (s, nowhere)) (c.get_global_log_level w'.system).0 level
            _ global,
        rw apart (
            show_result-Prints show_level (c.get_node_log_level node w'.system).0 (level, at_global)
              _ (rw same (h.node_log_level node level w.system clean global_there))),
      )
