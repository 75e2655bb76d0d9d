-- ===== src/Base/Maps.antt =====
-- `Map` as the scripts use it: the entries in the order in which their keys were first set.
use Prim.Native.String.{String}
use mathlib.Core.List.{List, [], ◌∷◌}
use mathlib.Core.Option.{Option, none, some}
use mathlib.Core.Path.{◌≡◌, refl}
use native.Mathlib.Omega.{arith}
use text.Mathlib.Text.{◌==◌}
use text.Mathlib.TextEquality.{eq_iff}
use inc_ql.Base.Tests.{if◌then◌else◌}

module _ {ℓ} {A : Type ℓ} where
  -- `map.get(key)`; `undefined` is `none`
  abbrev pub get_entry : String → List (String × A) → Option A
  get_entry key [] = none
  get_entry key ((k, v) ∷ m) = let rest = get_entry key m in if k == key then some v else rest

  -- `map.set(key, value)`: an old key keeps its place
  abbrev pub set_entry : String → A → List (String × A) → List (String × A)
  set_entry key value [] = (key, value) ∷ []
  set_entry key value ((k, v) ∷ m) =
      let rest = (k, v) ∷ set_entry key value m in if k == key then (k, value) ∷ m else rest

  -- `[...map.keys()]`
  abbrev pub keys : List (String × A) → List String
  keys [] = []
  keys ((k, v) ∷ m) = k ∷ keys m

  pub get-set_entry :
      (key other : String) (value : A) (m : List (String × A))
      → get_entry other (set_entry key value m)
        ≡ (if key == other then some value else get_entry other m)
  get-set_entry key other value [] = refl
  get-set_entry key other value ((k, v) ∷ m) =
      ground
        (arith, eq_iff k key, eq_iff k other, eq_iff key other, get-set_entry key other value m)
