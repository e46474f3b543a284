-- ===== src/Commands/Get/Laws.antt =====
-- What get prints in JSON and in YAML.
use operations_calico_contai.Base.{
  String, ◌<>◌, ◌≡◌, refl, ap, none, some, List, [], ◌∷◌, ◌++◌, map, All,
}
use operations_calico_contai.Base.Result.{Result, ok}
use operations_calico_contai.Base.Outcome.{returned}
use operations_calico_contai.Base.Proc.{World}
use operations_calico_contai.Platform.{Platform}
use operations_calico_contai.Manager.{struct, pointer, object}
use operations_calico_contai.Resources.Convert.{Elements, elements, loaded}
use operations_calico_contai.Resources.Convert.Laws.{HasItems, expand, convert-pointers}
use operations_calico_contai.Commands.Get.{Encoders, elements_of, print_encoded}

object-struct : {O : Type 0} (os : List O) → map object (map struct os) ≡ os
object-struct [] = refl
object-struct (o ∷ os) = ap (λ l. o ∷ l) (object-struct os)

module _ (p : Platform) (enc : Encoders p) where
  elements_of-pointers :
      (os : List p.Object)
      → elements_of p enc (map (λ o. some (pointer o)) os) ≡ elements (map pointer os)
  elements_of-pointers [] = refl
  elements_of-pointers (o ∷ os) =
      ap (λ t. Elements.cons (loaded (pointer o)) t) (elements_of-pointers os)

  -- For pointers to structs, of which those whose kind is a list have items, if the encoder
  -- encodes the structs with every list replaced by its items, then the printer prints that
  -- text and the end of the line that it is given, and returns no error.
  pub print_encoded-expands :
      (encode : List p.Object → Result String) (end out : String) (os : List p.Object)
      (w : World p.Store)
      → All (HasItems p) os
      → encode (expand p os) ≡ ok out
      → print_encoded p enc encode end (map (λ o. some (pointer o)) os) w
        ≡ (returned none, record w { stdout = w.stdout ++ ((out <> end) ∷ []) })
  unfolding print_encoded
  print_encoded-expands encode end out os w has_items encoded =
      rw (elements_of-pointers os, convert-pointers p os has_items, object-struct (expand p os))
        (rw encoded refl)
