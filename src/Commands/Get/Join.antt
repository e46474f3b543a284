-- ===== src/Commands/Get/Join.antt =====
-- calicoctl/commands/printer.go: `join`, the function that the templates of the tables call.
use operations_calico_contai.Base.{
  String, ◌<>◌, ◌≡◌, refl, sym, ap, ◌∙◌, Bool, true, false, List, [], ◌∷◌, map, if◌then◌else◌,
}
use text.Mathlib.TextLemmas.{append_assoc, nil-append, append-nil}
use operations_calico_contai.Base.Text

-- The `interface{}` that is joined, by its type.
pub data Items (A : Type 0) : Type 0 where
  strings : List String → Items A
  slice : List A → Items A
  single : A → Items A

-- `fmt.Sprint`, the text of a value, is a parameter: it depends on the methods of its type.
module _ {A : Type 0} (show : A → String) (separator : String) where
  -- The loop over the slice, with its buffer; the first item has no separator before it.
  unfoldable pub write_items : Bool → List A → String → String
  write_items first [] buf = buf
  write_items first (x ∷ xs) buf =
      write_items false xs ((if first then buf else buf <> separator) <> show x)

  -- join
  unfoldable pub join : Items A → String
  unfolding write_items Text.join
  join (strings s) = Text.join s separator
  join (slice xs) = write_items true xs ""
  join (single x) = show x

  -- What the loop adds to the buffer after the first item.
  abbrev rest_of : List A → String
  rest_of [] = ""
  rest_of (x ∷ xs) = separator <> (show x <> rest_of xs)

  write_items-rest : (xs : List A) (buf : String) → write_items false xs buf ≡ buf <> rest_of xs
  unfolding write_items
  write_items-rest [] buf = sym (append-nil buf)
  write_items-rest (x ∷ xs) buf = write_items-rest xs _ ∙ simp append_assoc

  join-rest : (x : A) (xs : List A) → show x <> rest_of xs ≡ Text.join (map show (x ∷ xs)) separator
  unfolding Text.join
  join-rest x [] = append-nil (show x)
  join-rest x (y ∷ ys) = ap (λ t. show x <> (separator <> t)) (join-rest y ys)

  -- A slice of any values is joined as the slice of the texts of its values is.
  pub join-slice : (xs : List A) → join (slice xs) ≡ join (strings (map show xs))
  unfolding join write_items
  join-slice [] = refl
  join-slice (x ∷ xs) =
      write_items-rest xs ("" <> show x)
      ∙ ap (λ t. t <> rest_of xs) (nil-append (show x))
      ∙ join-rest x xs
