-- ===== src/Common/Dict.antt =====
-- A JavaScript `Map` or object with text keys, as an association list.
use Prim.Native.String.{String}
use mathlib.Core.Path.{◌≡◌, refl}
use mathlib.Core.Option.{Option, none, some}
use mathlib.Core.List.{List, [], ◌∷◌}
use native.Mathlib.Omega.{arith}
use text.Mathlib.Text.{◌==◌}
use text.Mathlib.TextEquality.{eq_iff}
use dashboards_query_workben.Common.Tests.{if◌then◌else◌}

module _ {ℓ} {A : Type ℓ} where
  -- `map.delete(key)`
  unfoldable pub delete : (key : String) → List (String × A) → List (String × A)
  delete key [] = []
  delete key ((own, value) ∷ rest) =
      let others = delete key rest in if own == key then others else (own, value) ∷ others

  -- `map.get(key)`
  unfoldable pub lookup : (key : String) → List (String × A) → Option A
  lookup key [] = none
  lookup key ((own, value) ∷ rest) =
      let later = lookup key rest in if own == key then some value else later

  -- `map.set(key, value)`
  unfoldable pub insert : (key : String) → A → List (String × A) → List (String × A)
  insert key new [] = (key, new) ∷ []
  insert key new ((own, value) ∷ rest) =
      let changed = insert key new rest in
      if own == key then (key, new) ∷ rest else (own, value) ∷ changed

  pub lookup-delete :
      (gone key : String) (entries : List (String × A))
      → lookup key (delete gone entries) ≡ (if gone == key then none else lookup key entries)
  unfolding delete lookup
  lookup-delete gone key [] = ground arith
  lookup-delete gone key ((own, value) ∷ rest) =
      ground (arith, lookup-delete gone key rest, eq_iff own key, eq_iff own gone, eq_iff gone key)

  pub lookup-insert :
      (set key : String) (new : A) (entries : List (String × A))
      → lookup key (insert set new entries) ≡ (if set == key then some new else lookup key entries)
  unfolding insert lookup
  lookup-insert set key new [] = refl
  lookup-insert set key new ((own, value) ∷ rest) =
      ground (arith, lookup-insert set key new rest, eq_iff own set, eq_iff own key, eq_iff set key)
