-- ===== src/Commands/Ends/Get.antt =====
-- The display of resources.
use operations_calico_contai.Base.{
  String, ◌<>◌, ◌≡◌, refl, Bool, Option, none, some, List, [], ◌∷◌, map, All, inl, inr, arith,
}
use operations_calico_contai.Base.Result.{Error, Result, ok, err, message}
use operations_calico_contai.Base.Outcome.{Outcome, returned, exited, panicked}
use operations_calico_contai.Base.Proc.{
  World, Proc, pure, exit, lift, print, println, continue, ◌>>=◌, ◌>>◌,
}
use operations_calico_contai.Base.Proc.Ends.{
  Ends, EndsWell, bind-Ends, bind-EndsWell, lift-EndsWell,
}
use operations_calico_contai.Args.{Args, must_string}
use operations_calico_contai.Args.Laws.{OfResources}
use operations_calico_contai.Platform.{Platform}
use operations_calico_contai.Manager.{Resource, struct, pointer, object, get_resource_manager}
use operations_calico_contai.Manager.Registrations.{registered}
use operations_calico_contai.Manager.Tables.{get_table_template}
use operations_calico_contai.Resources.Convert.{
  items_of, convert_to_slice_of_resources, convert_elements,
}
use operations_calico_contai.Resources.Convert.Laws.{items_of-some}
use operations_calico_contai.Resources.Execute.{CommandResults, action_list, execute_config_command}
use operations_calico_contai.Resources.Execute.FromFile.{own-single, list-many}
use operations_calico_contai.Resources.Execute.Listed.{
  IsPrintable, Lists, ArePrintable, execute_config_command-ArePrintable,
}
use operations_calico_contai.Resources.Execute.Total.{Returns}
use operations_calico_contai.Resources.Execute.FromFile.{
  execute_config_command-Returns_for_resources,
}
use operations_calico_contai.Commands.Get.{
  Encoders, Printer, json, yaml, table, template_file, template, Choice, printer, refused, choose,
  elements_of, print_encoded, print_one, headings_for, print_table, print_template, print_with,
  show_results, get_resources,
}
use operations_calico_contai.Commands.Ends.Resources.{IsTyped}

module _ (p : Platform) (enc : Encoders p) where
  -- text/template parses the templates of the columns of every kind, and executes them.
  abbrev pub ExecutesTables : Type 0
  ExecutesTables =
      (r : Resource p.Object) (headings : List String) (tpls : String)
      → get_table_template enc.order (get_resource_manager p (registered p) r) headings ≡ ok tpls
      → (t : enc.Template) × (enc.parse tpls ≡ ok t) × ((enc.execute_table t r).1 ≡ none)

  elements-Ends :
      (xs : List (Option (Resource p.Object)))
      → All (IsPrintable p) xs
      → Ends (convert_elements p (elements_of p enc xs))
  unfolding convert_elements items_of
  elements-Ends [] h = tt
  elements-Ends (none ∷ xs) (h, hs) = absurd h
  elements-Ends (some (struct o) ∷ xs) (own, hs) =
      rw (own-single p o own)
        (bind-Ends (convert_elements p (elements_of p enc xs)) _ (elements-Ends xs hs) (λ rest. tt))
  elements-Ends (some (pointer o) ∷ xs) (inl own, hs) =
      rw (own-single p o own)
        (bind-Ends (convert_elements p (elements_of p enc xs)) _ (elements-Ends xs hs) (λ rest. tt))
  elements-Ends (some (pointer o) ∷ xs) (inr (many, (items, found, _)), hs) =
      rw (list-many p o many) (
        rw (items_of-some p o found) (
          bind-Ends (convert_elements p (elements_of p enc xs)) _ (elements-Ends xs hs)
            (λ rest. tt)))

  -- The part after the conversion.
  abbrev encoded :
      (List p.Object → Result String)
      → String
      → List (Resource p.Object)
      → Proc p.Store (Option Error)
  encoded encode end rs = elim (encode (map object rs)) [
    | err e ↦ pure (some e)
    | ok output ↦ do print (output <> end); pure none
  ]

  encoded-EndsWell :
      (encode : List p.Object → Result String) (end : String) (rs : List (Resource p.Object))
      → EndsWell (encoded encode end rs)
  encoded-EndsWell encode end rs w = ground arith

  print_encoded-EndsWell :
      (encode : List p.Object → Result String) (end : String)
      (xs : List (Option (Resource p.Object)))
      → All (IsPrintable p) xs
      → EndsWell (print_encoded p enc encode end xs)
  unfolding print_encoded convert_to_slice_of_resources
  print_encoded-EndsWell encode end xs h =
      bind-EndsWell (lift (convert_elements p (elements_of p enc xs))) (encoded encode end)
        (lift-EndsWell (convert_elements p (elements_of p enc xs)) (elements-Ends xs h))
        (encoded-EndsWell encode end)

  module _ (tables : ExecutesTables) where
    print_one-EndsWell :
        (headings : List String) (r : Resource p.Object) (w : World p.Store)
        → (t : Result String)
        → get_table_template enc.order (get_resource_manager p (registered p) r) headings ≡ t
        → Ends (print_one p enc headings r w).0
    unfolding print_one
    print_one-EndsWell headings r w (err e) made = rw (made, print_one) tt
    print_one-EndsWell headings r w (ok tpls) made =
        let (t, parsed, executed) = tables r headings tpls made in
        rw (made, print_one) (rw (parsed, print_one) (rw (executed, print_one) tt))

    -- The test on the error of the loop.
    abbrev after_one :
        Option (List String)
        → Bool
        → List (Option (Resource p.Object))
        → Option Error
        → Proc p.Store (Option Error)
    after_one headings wide xs failure = elim failure [
      | some e ↦ pure (some e)
      | none ↦ print_table p enc headings wide xs
    ]

    after_one-EndsWell :
        (headings : Option (List String)) (wide : Bool) (xs : List (Option (Resource p.Object)))
        → EndsWell (print_table p enc headings wide xs)
        → (failure : Option Error) → EndsWell (after_one headings wide xs failure)
    after_one-EndsWell headings wide xs ends (some e) = λ w. tt
    after_one-EndsWell headings wide xs ends none = ends

    print_table-EndsWell :
        (headings : Option (List String)) (wide : Bool) (xs : List (Option (Resource p.Object)))
        → All (IsPrintable p) xs
        → EndsWell (print_table p enc headings wide xs)
    unfolding print_table
    print_table-EndsWell headings wide [] h = λ w. tt
    print_table-EndsWell headings wide (none ∷ xs) (h, hs) = absurd h
    print_table-EndsWell headings wide (some r ∷ xs) (h, hs) =
        bind-EndsWell (print_one p enc (headings_for p enc headings wide r) r)
          (after_one headings wide xs)
          (λ w. print_one-EndsWell (headings_for p enc headings wide r) r w _ refl)
          (after_one-EndsWell headings wide xs (print_table-EndsWell headings wide xs hs))

    print_template-EndsWell :
        (text : String) (xs : List (Option (Resource p.Object)))
        → EndsWell (print_template p enc text xs)
    unfolding print_template
    print_template-EndsWell text xs w = ground arith

    -- The template of a file.
    abbrev from_file :
        List (Option (Resource p.Object)) → Result String → Proc p.Store (Option Error)
    from_file xs r = elim r [ err e ↦ pure (some e) | ok text ↦ print_template p enc text xs ]

    from_file-EndsWell :
        (xs : List (Option (Resource p.Object))) (r : Result String) → EndsWell (from_file xs r)
    from_file-EndsWell xs (err e) = λ w. tt
    from_file-EndsWell xs (ok text) = print_template-EndsWell text xs

    print_with-EndsWell :
        (rp : Printer) (xs : List (Option (Resource p.Object)))
        → All (IsPrintable p) xs
        → EndsWell (print_with p enc rp xs)
    unfolding print_with
    print_with-EndsWell json xs h = print_encoded-EndsWell enc.marshal_indent "\n" xs h
    print_with-EndsWell yaml xs h = print_encoded-EndsWell p.marshal "" xs h
    print_with-EndsWell (table headings wide) xs h = print_table-EndsWell headings wide xs h
    print_with-EndsWell (template_file file) xs h = from_file-EndsWell xs (enc.read_template file)
    print_with-EndsWell (template text) xs h = print_template-EndsWell text xs

    -- The test on the error of the printer.
    abbrev shown : Option Error → Proc p.Store (Unit {0})
    shown failure = elim failure [ none ↦ pure tt | some e ↦ println (message e) ]

    shown-EndsWell : (e : Option Error) → EndsWell (shown e)
    shown-EndsWell none = λ w. tt
    shown-EndsWell (some e) = λ w. tt

    show_results-Ends :
        (rp : Printer) (results : CommandResults p) (e : Option Error)
        → results.err ≡ e
        → All (IsPrintable p) results.resources
        → EndsWell (show_results p enc rp results)
    unfolding show_results
    show_results-Ends rp results (some e) failed h = λ w. rw (failed, show_results) refl
    show_results-Ends rp results none worked h = λ w.
        rw (worked, show_results)
          (bind-EndsWell (print_with p enc rp results.resources) shown
            (print_with-EndsWell rp results.resources h) shown-EndsWell w)

    module _ (t : IsTyped p) (lists : Lists p) (args : Args) (g : OfResources args) where
      shows :
          (rp : Printer) (o : Outcome (CommandResults p)) (w : World p.Store)
          → Returns p (o, w)
          → ArePrintable p (o, w)
          → Ends (continue o (show_results p enc rp) w).0
      shows rp (returned results) w ends h = show_results-Ends rp results results.err refl h w
      shows rp (exited n) w ends h = absurd ends
      shows rp panicked w ends h = ends

      -- The switch on the choice of the printer.
      abbrev chosen : Choice → Proc p.Store (Unit {0})
      chosen choice = elim choice [
        | refused text ↦ do print text; exit 1
        | printer rp ↦ do
          results ← execute_config_command p args action_list
          show_results p enc rp results
      ]

      chosen-EndsWell : (choice : Choice) → EndsWell (chosen choice)
      chosen-EndsWell (refused text) = λ w. refl
      chosen-EndsWell (printer rp) = λ w.
          shows rp (execute_config_command p args action_list w).0 _
            (execute_config_command-Returns_for_resources p t.constructors t.fields t.zeros
              t.decodes args action_list w g)
            (execute_config_command-ArePrintable p t.constructors t.fields t.zeros t.decodes lists
              args g w)

      pub get_resources-EndsWell :
          Ends (must_string args "--output") → EndsWell (get_resources p enc args)
      unfolding get_resources
      get_resources-EndsWell output =
          bind-EndsWell (lift (must_string args "--output")) (λ output. chosen (choose output))
            (lift-EndsWell (must_string args "--output") output)
            (λ output. chosen-EndsWell (choose output))
