-- ===== src/Commands/Get/Columns.antt =====
-- The columns that a table is given in the output format.
use mathlib.Core.Path.{subst}
use operations_calico_contai.Base.{
  String, ◌<>◌, ◌≡◌, ◌≢◌, ◌↔◌, ◌∙◌, refl, sym, ap, false, Option, none, some, List, ◌∷◌, All, inl,
  inr, arith, eq_iff, ◌==◌, Bool-cases,
}
use operations_calico_contai.Base.Text.{join}
use operations_calico_contai.Base.Text.Split.{split_pair, split_commas}
use operations_calico_contai.Base.Text.Split.Laws.{
  Without, is_comma, is_equals, join-split_commas, split_commas-join, split_pair-some,
  split_pair-append, split_on-Without,
}
use operations_calico_contai.Commands.Get.{
  table, printer, unless_blank, choose_pair, choose_split, choose,
}

-- The choice is a table of the columns.
abbrev Chooses : String → List String → Type 0
Chooses output columns = choose output ≡ printer (table (some columns) false)

of_split :
    (output key : String) (value : Option String) {columns : List String}
    → choose_split output (key, value) ≡ printer (table (some columns) false)
    → (text : String) × (value ≡ some text)
      × (key ≡ "custom-columns")
      × (text ≢ "")
      × (columns ≡ split_commas text)
unfolding choose_split choose_pair unless_blank
of_split output key none h = absurd (ground arith)
of_split output key (some text) h = (
  text,
  refl,
  ground (arith, eq_iff key "custom-columns"),
  λ blank. ground (arith, eq_iff text ""),
  ground arith,
)

of_choose :
    (output : String) {columns : List String}
    → Chooses output columns
    → choose_split output (split_pair output) ≡ printer (table (some columns) false)
unfolding choose
of_choose output h = ground arith

is_key : Without is_equals "custom-columns"
is_key = ground arith

-- The format that the columns are the parts of.
to_split :
    (output text : String)
    → text ≢ ""
    → output ≡ "custom-columns" <> ("=" <> text)
    → choose_split output (split_pair output) ≡ printer (table (some (split_commas text)) false)
unfolding choose_split choose_pair unless_blank
to_split output text given same =
    rw same (rw (split_pair-append "custom-columns" text is_key) (ground (arith, eq_iff text "")))

-- A pair of a key and a value is no word without "=".
differs :
    (output word text : String)
    → split_pair output ≡ ("custom-columns", some text)
    → (split_pair word).1 ≡ none
    → (output == word) ≡ false
differs output word text pair bare = elim (Bool-cases (output == word)) [
  | inl same ↦ absurd (
      clash (
        sym bare
        ∙ (ap (λ s. (split_pair s).1) (sym ((eq_iff output word).0 same)) ∙ ap (λ r. r.1) pair)))
  | inr other ↦ other
]
  where
    clash : ◌≡◌ {A = Option String} none (some text) → ⊥
    clash e = ground arith

choose-pair :
    (output text : String)
    → split_pair output ≡ ("custom-columns", some text)
    → choose output ≡ choose_split output (split_pair output)
unfolding choose split_pair
choose-pair output text pair =
    rw (differs output "yaml" text pair refl, choose)
      (rw (differs output "json" text pair refl)
        (rw (differs output "ps" text pair refl) (rw (differs output "wide" text pair refl) refl)))

-- The output format chooses a table of columns exactly if it is "custom-columns=" and the columns
-- joined by commas, which is not blank, and the columns are at least one and have no commas.
pub choose-columns_iff :
    (output word : String) (words : List String)
    → (choose output ≡ printer (table (some (word ∷ words)) false)) ↔ (
        (output ≡ "custom-columns" <> ("=" <> join (word ∷ words) ","))
        × (join (word ∷ words) "," ≢ "")
        × All (Without is_comma) (word ∷ words))
unfolding split_commas
choose-columns_iff output word words = (
  λ chosen.
      let (text, has, key, given, parts) =
        of_split output (split_pair output).0 (split_pair output).1 (of_choose output chosen) in
      let joined : join (word ∷ words) "," ≡ text = rw parts (join-split_commas text) in
      (
        split_pair-some output (λ i. (key i, has i))
            ∙ ap (λ t. "custom-columns" <> ("=" <> t)) (sym joined),
        rw joined given,
        subst (All (Without is_comma)) (sym parts) (split_on-Without is_comma text),
      ),
  λ (same, given, bare).
      choose-pair output _ (ap split_pair same ∙ split_pair-append "custom-columns" _ is_key)
      ∙ (to_split output (join (word ∷ words) ",") given same
          ∙ ap (λ l. printer (table (some l) false)) (split_commas-join word words bare)),
)
