-- ===== src/Prelude/Maps.antt =====
-- `HashMap<String, V>` as an association list; its order stands for the map's iteration order.
use Prim.Native.String.{String}
use mathlib.Core.Path.{◌≡◌}
use mathlib.Core.Option.{Option, none, some}
use mathlib.Core.List.{List, [], ◌∷◌}
use native.Mathlib.Omega.{arith}
use text.Mathlib.TextEquality.{eq_iff}
use umbrel_apps.Prelude.Tests.{if◌then◌else◌}
use umbrel_apps.Prelude.Texts.{str_eq}

module _ {ℓ} {V : Type ℓ} where
  -- `get`.
  unfoldable pub lookup : String → List (String × V) → Option V
  lookup key [] = none
  lookup key ((name, item) ∷ rest) =
      let later = lookup key rest in if str_eq name key then some item else later

  -- `insert`; a key that is there keeps its place.
  unfoldable pub insert : String → V → List (String × V) → List (String × V)
  insert key new [] = (key, new) ∷ []
  insert key new ((name, item) ∷ rest) =
      let later = insert key new rest in
      if str_eq name key then (name, new) ∷ rest else (name, item) ∷ later

  -- `remove`.
  unfoldable pub remove : String → List (String × V) → List (String × V)
  remove key [] = []
  remove key ((name, item) ∷ rest) =
      let later = remove key rest in if str_eq name key then later else (name, item) ∷ later

  pub lookup-remove :
      (key other : String) (entries : List (String × V))
      → lookup other (remove key entries)
        ≡ (if str_eq key other then none else lookup other entries)
  unfolding lookup remove
  lookup-remove key other [] = ground arith
  lookup-remove key other ((name, item) ∷ rest) =
      ground
        (arith, lookup-remove key other rest, eq_iff name other, eq_iff key other, eq_iff name key)

  pub lookup-insert :
      (key other : String) (new : V) (entries : List (String × V))
      → (if str_eq key other then some new else lookup other entries)
        ≡ lookup other (insert key new entries)
  unfolding lookup insert
  lookup-insert key other new [] = ground arith
  lookup-insert key other new ((name, item) ∷ rest) = ground (
    arith,
    lookup-insert key other new rest,
    eq_iff name other,
    eq_iff key other,
    eq_iff name key,
  )
