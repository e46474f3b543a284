-- ===== src/Commands/Node/Diags/Laws.antt =====
-- `node diags`: what becomes of a command that fails.
use operations_calico_contai.Base.{
  String, ◌≡◌, ◌≢◌, Bool, true, false, List, [], ◌∷◌, arith, eq_iff,
}
use operations_calico_contai.Base.Text.Split.{fields}
use operations_calico_contai.Base.Outcome.{returned}
use operations_calico_contai.Base.Proc.{World, Proc}
use operations_calico_contai.Commands.Node.Host.{Host}
use operations_calico_contai.Commands.Node.Diags.{
  Collector, DiagCmd, join_path, note, save, announce, write_diags,
}

module _ {S : Type 0} where
  abbrev Returning : Proc S (Unit {0}) → Type 0
  Returning m = (w : World S) → (m w).0 ≡ returned tt

module _ {S : Type 0} (h : Host S) (c : Collector S) where
  abbrev is_some_word : List String → Bool
  is_some_word [] = false
  is_some_word (word ∷ words) = true

  -- The command has a word.
  abbrev HasWord : DiagCmd → Type 0
  HasWord d = is_some_word (fields d.cmd) ≡ true

  -- The output of a command that has a word and a file is written to the file, whatever the error of
  -- the command is, and nothing else is done to the host.
  pub write_diags-saves :
      (d : DiagCmd) (dir word : String) (words : List String) (w : World S)
      → fields d.cmd ≡ word ∷ words
      → d.filename ≢ ""
      → let ((content, failure), after) = c.output (word ∷ words) w.system in
        ((write_diags h c d dir w).0 ≡ returned tt)
        × ((write_diags h c d dir w).1.system
            ≡ (h.write_file (join_path dir d.filename) content after).1)
  unfolding write_diags announce note save
  write_diags-saves d dir word words w cut named = ground (arith, eq_iff d.filename "")
