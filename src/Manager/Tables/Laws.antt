-- ===== src/Manager/Tables/Laws.antt =====
-- What the table templates say, and which default headings they accept.
use text.Mathlib.TextLemmas.{append-nil, nil-append, append_assoc}
use operations_calico_contai.Base.{
  String, ◌<>◌, ◌≡◌, refl, sym, ap, ◌∙◌, inl, inr, Option-cases, Bool, true, false, Option, none,
  some, List, [], ◌∷◌, if◌then◌else◌,
}
use operations_calico_contai.Base.Dict.{Dict, lookup}
use operations_calico_contai.Base.Result.{Result, ok, err, other}
use operations_calico_contai.Platform.{Platform}
use operations_calico_contai.Manager.{ResourceHelper}
use operations_calico_contai.Manager.Tables.{
  write_headings, write_values, unknown_heading, table_template, get_table_template,
}

-- The first of the headings that the map has no template for.
abbrev pub first_unknown : Dict String → List String → Option String
first_unknown m [] = none
first_unknown m (h ∷ hs) = elim (lookup h m) [ none ↦ some h | some v ↦ first_unknown m hs ]

abbrev pub heading_row : List String → String
heading_row [] = ""
heading_row (h ∷ hs) = h <> "\t" <> heading_row hs

abbrev pub value_row : Dict String → List String → String
value_row m [] = ""
value_row m (h ∷ hs) = elim (lookup h m) [
  | none ↦ value_row m hs
  | some v ↦ v <> "\t" <> value_row m hs
]

-- A row of headings and a row of templates, which a list type repeats for its items.
abbrev pub table_text : Bool → Dict String → List String → String
table_text true m hs =
    heading_row hs <> "\n" <> "{{range .Items}}" <> value_row m hs <> "\n" <> "{{end}}"
table_text false m hs = heading_row hs <> "\n" <> value_row m hs <> "\n"

write_headings-eq :
    (hs : List String) (buf : String) → write_headings hs buf ≡ buf <> heading_row hs
unfolding write_headings
write_headings-eq [] buf = sym (append-nil buf)
write_headings-eq (h ∷ hs) buf = write_headings-eq hs _ ∙ simp append_assoc

module _ (order : List String → List String) where
  -- The text if every heading is known, or the error that names the first unknown one.
  abbrev pub verdict : Dict String → Option String → String → Result String
  verdict m none text = ok text
  verdict m (some h) text = err (other (unknown_heading order m h))

  write_values-eq :
      (m : Dict String) (hs : List String) (buf : String)
      → write_values order m hs buf ≡ verdict m (first_unknown m hs) (buf <> value_row m hs)
  unfolding write_values
  write_values-eq m [] buf = ap ok (sym (append-nil buf))
  write_values-eq m (h ∷ hs) buf = elim (Option-cases (lookup h m)) [
    | inl e ↦ rw (e, first_unknown, write_values)
    | inr (v, e) ↦
        rw (e, first_unknown, write_values, value_row) (write_values-eq m hs _ ∙ simp append_assoc)
  ]

  finish :
      (is_list : Bool) (m : Dict String) (o : Option String) (text : String)
      → (elim (verdict m o text) [
        | err e ↦ err e
        | ok values ↦ let out = values <> "\n" in ok (if is_list then out <> "{{end}}" else out)
      ])
        ≡ verdict m o (if is_list then (text <> "\n") <> "{{end}}" else text <> "\n")
  finish true m none text = refl
  finish false m none text = refl
  finish is_list m (some h) text = refl

  table_template-eq :
      (is_list : Bool) (m : Dict String) (hs : List String)
      → table_template order is_list m hs ≡ verdict m (first_unknown m hs) (table_text is_list m hs)
  unfolding table_template
  table_template-eq true m hs =
      rw (table_template, write_headings-eq hs "", write_values-eq m hs)
        (finish true m (first_unknown m hs) _ ∙ simp (append_assoc, nil-append))
  table_template-eq false m hs =
      rw (table_template, write_headings-eq hs "", write_values-eq m hs)
        (finish false m (first_unknown m hs) _ ∙ simp (append_assoc, nil-append))

  -- The template of a table is the row of headings and the row of their templates, repeated
  -- for the items of a list type, or an error that names the first heading that the resource
  -- does not have.
  pub get_table_template-eq :
      {p : Platform} (rh : ResourceHelper p) (hs : List String)
      → get_table_template order rh hs
        ≡ verdict rh.headings_map
            (first_unknown rh.headings_map hs)
            (table_text rh.is_list rh.headings_map hs)
  unfolding get_table_template
  get_table_template-eq rh hs = table_template-eq rh.is_list rh.headings_map hs
