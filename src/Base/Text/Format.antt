-- ===== src/Base/Text/Format.antt =====
-- `fmt.Sprintf` with one text.
use mathlib.Core.Option.{none, some}
use Prim.Native.String.{String, ◌++◌}
use mathlib.Core.Path.{◌≡◌, refl}
use operations_calico_contai.Base.Text.{after_prefix}

-- The text stands for the first "%s" of the format.
unfoldable pub format_string : String → String → String
unfolding after_prefix
format_string String.[] s = String.[]
format_string (String.◌∷◌ c format) s =
    let rest = format_string format s in
    elim (after_prefix "%s" (String.◌∷◌ c format)) [ some r ↦ s ++ r | none ↦ String.◌∷◌ c rest ]

format_string_test : format_string "calico/node:%s]" "v1" ≡ "calico/node:v1]"
unfolding format_string
format_string_test = refl
