-- ===== src/Commands/Get/Printed.antt =====
-- printer.go: what the printer of tables prints, and when it fails.
use mathlib.Core.List.{append-nil, append_assoc}
use operations_calico_contai.Base.{
  ap, sym, ◌∙◌, String, ◌≡◌, ◌≢◌, refl, Bool, Option, none, some, List, [], ◌∷◌, ◌++◌, All, inl,
  inr, Option-cases,
}
use operations_calico_contai.Base.Result.{Error, ok, other}
use operations_calico_contai.Base.Outcome.{returned}
use operations_calico_contai.Base.Proc.{World}
use operations_calico_contai.Platform.{Platform}
use operations_calico_contai.Manager.{Resource, ResourceHelper, get_resource_manager}
use operations_calico_contai.Manager.Registrations.{registered}
use operations_calico_contai.Manager.Tables.{get_table_template, unknown_heading}
use operations_calico_contai.Manager.Tables.Laws.{
  first_unknown, verdict, table_text, get_table_template-eq,
}
use operations_calico_contai.Commands.Get.{Encoders, print_one, headings_for, print_table}
use operations_calico_contai.Commands.Ends.Get.{ExecutesTables}

module _ (p : Platform) (enc : Encoders p) (choice : Option (List String)) (wide : Bool) where
  abbrev manager : Resource p.Object → ResourceHelper p
  manager r = get_resource_manager p (registered p) r

  -- The first of the columns of the table that the resource does not have.
  abbrev pub missing : Resource p.Object → Option String
  missing r = first_unknown (manager r).headings_map (headings_for p enc choice wide r)

  abbrev columns : Resource p.Object → String
  columns r =
      table_text (manager r).is_list (manager r).headings_map (headings_for p enc choice wide r)

  -- What is printed for the resources, and the error: the table of each resource and a blank line, up
  -- to the first resource that does not have one of the columns, which is the error.
  pub data Printed : List (Option (Resource p.Object)) → List String → Option Error → Type 0 where
    all_printed : Printed [] [] none
    unknown :
        {r : Resource p.Object} {xs : List (Option (Resource p.Object))} {h : String}
        → missing r ≡ some h
        → Printed
            (some r ∷ xs)
            []
            (some (other (unknown_heading enc.order (manager r).headings_map h)))
    printed :
        {r : Resource p.Object} {xs : List (Option (Resource p.Object))} {t : enc.Template}
        {out : String} {new : List String} {e : Option Error}
        → missing r ≡ none
        → enc.parse (columns r) ≡ ok t
        → enc.execute_table t r ≡ (out, none)
        → Printed xs new e
        → Printed (some r ∷ xs) (out ∷ "\n" ∷ new) e

  -- The world with more printed.
  abbrev wrote : List String → World p.Store → World p.Store
  wrote new w = record w { stdout = w.stdout ++ new }

  wrote_none : (w : World p.Store) → wrote [] w ≡ w
  wrote_none w = ap (λ l. record w { stdout = l }) (append-nil w.stdout)

  wrote_more : (a b : List String) (w : World p.Store) → wrote b (wrote a w) ≡ wrote (a ++ b) w
  wrote_more a b w = ap (λ l. record w { stdout = l }) (append_assoc w.stdout a b)

  template_of :
      (r : Resource p.Object) {o : Option String}
      → missing r ≡ o
      → get_table_template enc.order (manager r) (headings_for p enc choice wide r)
        ≡ verdict enc.order (manager r).headings_map o (columns r)
  template_of r e =
      get_table_template-eq enc.order (manager r) (headings_for p enc choice wide r)
      ∙ ap (λ o. verdict enc.order (manager r).headings_map o (columns r)) e

  print_one-unknown :
      (r : Resource p.Object) {h : String} (w : World p.Store)
      → missing r ≡ some h
      → print_one p enc (headings_for p enc choice wide r) r w
        ≡ (returned (some (other (unknown_heading enc.order (manager r).headings_map h))), w)
  unfolding print_one
  print_one-unknown r w e = rw (template_of r e, print_one) refl

  print_one-printed :
      (r : Resource p.Object) {t : enc.Template} {out : String} (w : World p.Store)
      → missing r ≡ none
      → enc.parse (columns r) ≡ ok t
      → enc.execute_table t r ≡ (out, none)
      → print_one p enc (headings_for p enc choice wide r) r w
        ≡ (returned none, wrote (out ∷ "\n" ∷ []) w)
  unfolding print_one
  print_one-printed r {t} {out} w e parsed executed =
      rw (template_of r e, print_one)
        (rw (parsed, print_one)
          (rw (executed, print_one)
            (ap (λ w. (returned none, w))
                (wrote_more ((enc.execute_table t r).0 ∷ []) ("\n" ∷ []) w)
              ∙ ap (λ x. (returned none, wrote (x.0 ∷ "\n" ∷ []) w)) executed)))

  module _ (tables : ExecutesTables p enc) where
    -- If the templates that are built for the tables parse and print without an error, and no resource
    -- is nil, then the printer of tables returns, changes nothing, and prints the table of each
    -- resource with a blank line, in order, up to the first resource that does not have one of its
    -- columns, whose name the error then has; without such a resource there is no error.
    pub print_table-Printed :
        (xs : List (Option (Resource p.Object))) (w : World p.Store)
        → All (λ x. x ≢ none) xs
        → (new : List String) × (e : Option Error) × (print_table p enc choice wide xs w
            ≡ (returned e, record w { stdout = w.stdout ++ new }))
          × Printed xs new e
    unfolding print_table print_one
    print_table-Printed [] w h =
        ([], none, ap (λ w. (returned none, w)) (sym (wrote_none w)), all_printed)
    print_table-Printed (none ∷ xs) w (h, hs) = absurd (h refl)
    print_table-Printed (some r ∷ xs) w (h, hs) = elim (Option-cases (missing r)) [
      | inr (name, lacks) ↦ (
        [],
        _,
        rw (print_one-unknown r w lacks, print_table)
            (ap (λ w. (returned _, w)) (sym (wrote_none w))),
        unknown lacks,
      )
      | inl has ↦
          let (t, parsed, executed) =
            tables r (headings_for p enc choice wide r) (columns r) (template_of r has) in
          let (new, e, prints, shown) =
            print_table-Printed xs (wrote ((enc.execute_table t r).0 ∷ "\n" ∷ []) w) hs in
          (
            (enc.execute_table t r).0 ∷ "\n" ∷ new,
            e,
            rw
                (
                  print_one-printed r w has parsed
                      (ap (λ x. ((enc.execute_table t r).0, x)) executed),
                  print_table,
                )
                (prints
                  ∙ ap (λ w. (returned e, w))
                      (wrote_more ((enc.execute_table t r).0 ∷ "\n" ∷ []) new w)),
            printed has parsed (ap (λ x. ((enc.execute_table t r).0, x)) executed) shown,
          )
    ]
