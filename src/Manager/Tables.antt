-- ===== src/Manager/Tables.antt =====
-- calicoctl/resourcemgr/resourcemgr.go: GetTableDefaultHeadings and GetTableTemplate.
pub mod Laws
pub mod Defaults
use operations_calico_contai.Base.{
  String, ◌<>◌, Bool, none, some, List, [], ◌∷◌, map, if◌then◌else◌,
}
use operations_calico_contai.Base.Text.{join}
use operations_calico_contai.Base.Dict.{Dict, lookup}
use operations_calico_contai.Base.Result.{Result, ok, err, other}
use operations_calico_contai.Platform.{Platform}
use operations_calico_contai.Manager.{ResourceHelper}

-- The first loop, which writes the headings to the buffer.
unfoldable pub write_headings : List String → String → String
write_headings [] buf = buf
write_headings (heading ∷ rest) buf = write_headings rest (buf <> heading <> "\t")

-- The keys of the map, in an order that Go does not fix: `order` picks it.
abbrev pub keys : Dict String → List String
keys m = map (λ (k, v). k) m

unfoldable pub unknown_heading : (List String → List String) → Dict String → String → String
unfolding join
unknown_heading order m heading =
    "Unknown heading " <> heading <> ", valid values are: " <> join (order (keys m)) ", "

module _ (order : List String → List String) where
  -- The second loop, which writes the template of each column, or returns at the first unknown one.
  unfoldable pub write_values : Dict String → List String → String → Result String
  unfolding lookup unknown_heading
  write_values m [] buf = ok buf
  write_values m (heading ∷ rest) buf = elim (lookup heading m) [
    | none ↦ err (other (unknown_heading order m heading))
    | some value ↦ write_values m rest (buf <> value <> "\t")
  ]

  -- The body of GetTableTemplate, over the fields that it reads.
  unfoldable pub table_template : Bool → Dict String → List String → Result String
  unfolding write_headings write_values
  table_template is_list m headings =
      let buf = write_headings headings "" <> "\n" in
      let buf' = if is_list then buf <> "{{range .Items}}" else buf in
      elim (write_values m headings buf') [
        | err e ↦ err e
        | ok values ↦ let out = values <> "\n" in ok (if is_list then out <> "{{end}}" else out)
      ]

  -- GetTableTemplate
  unfoldable pub get_table_template :
      {p : Platform} → ResourceHelper p → List String → Result String
  unfolding table_template
  get_table_template rh = table_template rh.is_list rh.headings_map

-- GetTableDefaultHeadings
unfoldable pub get_table_default_headings : {p : Platform} → ResourceHelper p → Bool → List String
get_table_default_headings rh wide = if wide then rh.table_headings_wide else rh.table_headings
