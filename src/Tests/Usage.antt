-- ===== src/Tests/Usage.antt =====
-- Arguments as docopt gives them: a table with an entry for each name that the usage text declares.
use operations_calico_contai.Base.{
  String, ◌≡◌, refl, true, false, Option, none, some, [], ◌∷◌, inl, inr, arith, Bool-cases, ◌==◌,
}
use operations_calico_contai.Base.Dict.{Dict, lookup}
use operations_calico_contai.Args.{Args, Value, nil, text, flag, texts}
use operations_calico_contai.Commands.Usage.Texts.Intro.{datastore_intro}
use operations_calico_contai.Commands.Usage.Texts.Main.{main_lines}
use operations_calico_contai.Commands.Usage.Texts.Select.{delete_lines}
use operations_calico_contai.Commands.Usage.Declared.{Kind, declared}
use operations_calico_contai.Commands.Usage.Pattern.{pattern_of}
use operations_calico_contai.Commands.Usage.Follows.{HasKind, Follows}

abbrev given : Option Value → Value
given none = nil
given (some v) = v

-- The map that has the entries of the table.
abbrev pub args_of : Dict Value → Args
args_of table name = given (lookup name table)

-- The table has a value of the right kind for each declared name, in the same order.
abbrev pub Agrees : Dict Kind → Dict Value → Type 0
Agrees [] [] = Unit
Agrees [] (_ ∷ _) = ⊥
Agrees (_ ∷ _) [] = ⊥
Agrees ((name, k) ∷ kinds) ((name', v) ∷ table) =
    (name ≡ name') × HasKind (some k) v × Agrees kinds table

pub Agrees-HasKind :
    (kinds : Dict Kind) (table : Dict Value) (name : String)
    → Agrees kinds table
    → HasKind (lookup name kinds) (args_of table name)
unfolding lookup
Agrees-HasKind [] [] name h = refl
Agrees-HasKind [] (_ ∷ _) name h = absurd h
Agrees-HasKind (_ ∷ _) [] name h = absurd h
Agrees-HasKind ((key, k) ∷ kinds) ((key', v) ∷ table) name (same, is, rest) =
    let later = Agrees-HasKind kinds table name rest in
    elim (Bool-cases (key == name)) [
      | inl here ↦ rw (← same) (rw here is)
      | inr other ↦ rw (← same) (rw other later)
    ]

-- `calicoctl delete node n1 --skip-not-exists`, first with the names of main's text and then with those
-- of delete's.
abbrev main_table : Dict Value
main_table =
    ("--help", flag false)
    ∷ ("--log-level", text "panic")
    ∷ ("<command>", text "delete")
    ∷ ("<args>", texts ("node" ∷ "n1" ∷ "--skip-not-exists" ∷ []))
    ∷ []

abbrev delete_table : Dict Value
delete_table =
    ("--help", flag false)
    ∷ ("--skip-not-exists", flag true)
    ∷ ("--filename", nil)
    ∷ ("--node", nil)
    ∷ ("--orchestrator", nil)
    ∷ ("--workload", nil)
    ∷ ("--scope", nil)
    ∷ ("--config", text "/etc/calico/calicoctl.cfg")
    ∷ ("delete", flag true)
    ∷ ("<KIND>", text "node")
    ∷ ("<NAME>", text "n1")
    ∷ []

abbrev pub main_given : Args
main_given = args_of main_table

abbrev pub delete_given : Args
delete_given = args_of delete_table

pub main_given-Follows : Follows main_given main_lines
unfolding declared pattern_of lookup main_lines
main_given-Follows = record {
  kinds = λ name.
      Agrees-HasKind (declared main_lines) main_table name
        (refl, (_, refl), (refl, (_, refl), (refl, inr (_, refl), (refl, (_, refl), tt))));
  matches = λ absent. ground arith;
}

pub delete_given-Follows : Follows delete_given delete_lines
unfolding declared pattern_of lookup delete_lines datastore_intro
delete_given-Follows = record {
  kinds = λ name. Agrees-HasKind (declared delete_lines) delete_table name (
    refl,
    (_, refl),
    (
      refl,
      (_, refl),
      (
        refl,
        inl refl,
        (
          refl,
          inl refl,
          (
            refl,
            inl refl,
            (
              refl,
              inl refl,
              (
                refl,
                inl refl,
                (
                  refl,
                  (_, refl),
                  (refl, (_, refl), (refl, inr (_, refl), (refl, inr (_, refl), tt))),
                ),
              ),
            ),
          ),
        ),
      ),
    ),
  );
  matches = inl (λ absent. ground arith);
}
