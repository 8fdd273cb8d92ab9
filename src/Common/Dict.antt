-- ===== src/Common/Dict.antt =====
-- A hash map keyed by text, as the list of its entries.
use Prim.Native.String.{String}
use mathlib.Core.Path.{◌≡◌}
use mathlib.Core.Bool.{true, false}
use mathlib.Core.Option.{Option, none, some}
use mathlib.Core.List.{List, [], ◌∷◌}
use native.Mathlib.Omega.{arith}
use text.Mathlib.Text.{◌==◌}
use text.Mathlib.TextEquality.{eq_iff}
use open_covibe_web.Common.Tests.{if◌then◌else◌}

module _ {ℓ} {Value : Type ℓ} where
  unfoldable pub lookup : String → List (String × Value) → Option Value
  lookup key [] = none
  lookup key ((stored, value) ∷ entries) = elim (stored == key) [
    | true ↦ some value
    | false ↦ lookup key entries
  ]

  -- Every entry of the key goes.
  unfoldable pub remove : String → List (String × Value) → List (String × Value)
  remove key [] = []
  remove key ((stored, value) ∷ entries) = elim (stored == key) [
    | true ↦ remove key entries
    | false ↦ (stored, value) ∷ remove key entries
  ]

  pub lookup-remove :
      (gone key : String) (entries : List (String × Value))
      → lookup key (remove gone entries) ≡ (if gone == key then none else lookup key entries)
  unfolding lookup remove
  lookup-remove gone key [] = ground arith
  lookup-remove gone key ((stored, value) ∷ entries) = ground (
    arith,
    eq_iff stored key,
    eq_iff gone key,
    lookup-remove gone key entries,
    eq_iff stored gone,
  )
