-- ===== src/Commands/Get.antt =====
-- calicoctl/commands/get.go and printer.go: the choice of the printer, and what each of them prints.
pub mod Laws
pub mod Columns
pub mod Join
pub mod Printed
use operations_calico_contai.Base.{
  ℕ, String, ◌<>◌, Bool, true, false, Option, none, some, List, [], ◌∷◌, map, ◌==◌, if◌then◌else◌,
}
use operations_calico_contai.Base.Text.Split.{split_pair, split_commas}
use operations_calico_contai.Base.Result.{Error, Result, ok, err, message}
use operations_calico_contai.Base.Proc.{Proc, pure, exit, panic, lift, print, println, ◌>>=◌, ◌>>◌}
use operations_calico_contai.Args.{Args, must_string}
use operations_calico_contai.Platform.{Platform}
use operations_calico_contai.Manager.{Resource, object, get_resource_manager}
use operations_calico_contai.Manager.Registrations.{registered}
use operations_calico_contai.Manager.Tables.{get_table_template, get_table_default_headings}
use operations_calico_contai.Resources.Convert.{
  Elements, nil, cons, Loaded, slice_of, unhandled, loaded, convert_to_slice_of_resources,
}
use operations_calico_contai.Resources.Execute.{action_list, CommandResults, execute_config_command}
use operations_calico_contai.Commands.Usage.{Parsed, with_arguments}
use operations_calico_contai.Commands.Manage.{show_error}

-- The resourcePrinters. A table has headings, or the default ones, wide or not.
pub data Printer : Type 0 where
  json : Printer
  yaml : Printer
  table : Option (List String) → Bool → Printer
  template_file : String → Printer
  template : String → Printer

-- The encoder of JSON and the templates of text/template, with the tab writer for a table.
pub record Encoders (p : Platform) : Type 1 where
  pub marshal_indent : List p.Object → Result String
  pub Template : Type 0
  pub parse : String → Result Template
  -- What the template writes for the resources, and its error.
  pub execute : Template → List (Option (Resource p.Object)) → String × Option Error
  pub execute_table : Template → Resource p.Object → String × Option Error
  pub read_template : String → Result String
  -- The order in which the keys of the template map are listed in an error.
  pub order : List String → List String

-- The printer, or the text of the error.
pub data Choice : Type 0 where
  printer : Printer → Choice
  refused : String → Choice

unfoldable pub unless_blank : String → String → Printer → Choice
unless_blank value need chosen = if value == "" then refused need else printer chosen

-- The switch on the key of a key=value pair.
unfoldable pub choose_pair : String → String → String → List String → Choice
unfolding unless_blank
choose_pair output key value values =
    if key == "go-template"
    then unless_blank value "need to specify a template" (template value)
    else if key == "go-template-file"
    then unless_blank value "need to specify a template file" (template_file value)
    else if key == "custom-columns"
    then unless_blank value "need to specify at least one column" (table (some values) false)
    else refused ("unrecognized output format '" <> output <> "'")

-- "Output format may be a key=value pair, so split on "=" to find out."
unfoldable pub choose_split : String → String × Option String → Choice
unfolding choose_pair split_commas
choose_split output (key, none) = choose_pair output key "" []
choose_split output (key, some value) = choose_pair output key value (split_commas value)

-- The switch on the output format.
unfoldable pub choose : String → Choice
unfolding choose_split split_pair
choose output =
    if output == "yaml"
    then printer yaml
    else if output == "json"
    then printer json
    else if output == "ps"
    then printer (table none false)
    else if output == "wide"
    then printer (table none true)
    else choose_split output (split_pair output)

module _ (p : Platform) (enc : Encoders p) where
  -- A nil resource is not a type that the conversion handles.
  abbrev pub elements_of : List (Option (Resource p.Object)) → Elements p.Object
  elements_of [] = nil
  elements_of (none ∷ xs) = cons unhandled (elements_of xs)
  elements_of (some r ∷ xs) = cons (loaded r) (elements_of xs)

  -- The print method of resourcePrinterJSON and resourcePrinterYAML: they return an error or none.
  unfoldable pub print_encoded :
      (List p.Object → Result String)
      → String
      → List (Option (Resource p.Object))
      → Proc p.Store (Option Error)
  unfolding convert_to_slice_of_resources
  print_encoded encode end xs = do
    rs ← lift (convert_to_slice_of_resources p (slice_of (elements_of xs)))
    elim (encode (map object rs)) [
      | err e ↦ pure (some e)
      | ok output ↦ do print (output <> end); pure none
    ]

  -- The body of the loop of resourcePrinterTable over the headings that it has chosen.
  unfoldable pub print_one : List String → Resource p.Object → Proc p.Store (Option Error)
  unfolding get_resource_manager get_table_template
  print_one headings r =
      let rm = get_resource_manager p (registered p) r in
      elim (get_table_template enc.order rm headings) [
        | err e ↦ pure (some e)
        | ok tpls ↦ elim (enc.parse tpls) [
          | err _ ↦ panic
          | ok tmpl ↦
              let (out, failure) = enc.execute_table tmpl r in
              elim failure [ some _ ↦ panic | none ↦ do print out; print "\n"; pure none ]
        ]
      ]

  abbrev pub headings_for : Option (List String) → Bool → Resource p.Object → List String
  headings_for (some headings) wide r = headings
  headings_for none wide r =
      get_table_default_headings (get_resource_manager p (registered p) r) wide

  -- The print method of resourcePrinterTable: the loop ends at the first error.
  unfoldable pub print_table :
      Option (List String) → Bool → List (Option (Resource p.Object)) → Proc p.Store (Option Error)
  unfolding print_one get_table_default_headings get_resource_manager
  print_table headings wide [] = pure none
  print_table headings wide (none ∷ xs) = panic
  print_table headings wide (some r ∷ xs) = do
    failure ← print_one (headings_for headings wide r) r
    elim failure [ some e ↦ pure (some e) | none ↦ print_table headings wide xs ]

  -- The print method of resourcePrinterTemplate.
  unfoldable pub print_template :
      String → List (Option (Resource p.Object)) → Proc p.Store (Option Error)
  print_template text xs = elim (enc.parse text) [
    | err e ↦ pure (some e)
    | ok tmpl ↦ let (out, failure) = enc.execute tmpl xs in do print out; pure failure
  ]

  -- `rp.print`
  unfoldable pub print_with :
      Printer → List (Option (Resource p.Object)) → Proc p.Store (Option Error)
  unfolding print_encoded print_table print_template
  print_with json xs = print_encoded enc.marshal_indent "\n" xs
  print_with yaml xs = print_encoded p.marshal "" xs
  print_with (table headings wide) xs = print_table headings wide xs
  print_with (template_file file) xs = elim (enc.read_template file) [
    | err e ↦ pure (some e)
    | ok text ↦ print_template text xs
  ]
  print_with (template text) xs = print_template text xs

  -- The tests on the errors.
  unfoldable pub show_results : Printer → CommandResults p → Proc p.Store (Unit {0})
  unfolding print_with
  show_results rp results = elim results.err [
    | some e ↦ do print ("Error getting resources: " <> message e <> "\n"); exit 1
    | none ↦ do
      failure ← print_with rp results.resources
      elim failure [ none ↦ pure tt | some e ↦ println (message e) ]
  ]

  unfoldable pub get_resources : Args → Proc p.Store (Unit {0})
  unfolding choose execute_config_command show_results
  get_resources args = do
    output ← lift (must_string args "--output")
    elim (choose output) [
      | refused text ↦ do print text; exit 1
      | printer rp ↦ do results ← execute_config_command p args action_list; show_results rp results
    ]

  -- Get
  unfoldable pub get : List String → Parsed → Proc p.Store (Unit {0})
  unfolding with_arguments get_resources
  get argv answer = with_arguments argv answer get_resources
