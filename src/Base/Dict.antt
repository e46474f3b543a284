-- ===== src/Base/Dict.antt =====
-- Go maps with texts for keys, as association lists in which no key is written twice.
use Prim.Native.String.{String}
use mathlib.Core.Path.{◌≡◌, refl}
use mathlib.Core.Option.{Option, none, some}
use mathlib.Core.List.{List, [], ◌∷◌}
use native.Mathlib.Omega.{arith}
use text.Mathlib.Text.{◌==◌}
use text.Mathlib.TextEquality.{eq_iff}
use operations_calico_contai.Base.Tests.{if◌then◌else◌}

-- A map is a list of its entries.
abbrev pub Dict {ℓ} : (Value : Type ℓ) → Type ℓ
Dict Value = List (String × Value)

module _ {ℓ} {V : Type ℓ} where
  -- `m[k] = v`: the entry of the key, or a new one at the end.
  unfoldable pub insert : String → V → Dict V → Dict V
  insert k v [] = (k, v) ∷ []
  insert k v ((key, old) ∷ entries) =
      let rest = insert k v entries in if key == k then (k, v) ∷ entries else (key, old) ∷ rest

  -- `v, ok := m[k]`
  unfoldable pub lookup : String → Dict V → Option V
  lookup k [] = none
  lookup k ((key, value) ∷ entries) =
      let later = lookup k entries in if key == k then some value else later

  pub lookup-insert :
      (k j : String) (v : V) (m : Dict V)
      → lookup j (insert k v m) ≡ (if k == j then some v else lookup j m)
  unfolding insert lookup
  lookup-insert k j v [] = refl
  lookup-insert k j v ((key, old) ∷ entries) =
      ground (arith, eq_iff key k, eq_iff key j, eq_iff k j, lookup-insert k j v entries)
