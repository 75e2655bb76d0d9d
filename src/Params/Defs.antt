-- ===== src/Params/Defs.antt =====
-- `get`, `getAll`, `set`, `delete` and `append` on a list of names with values.
use inc_ql.Base.{String, List, [], ◌∷◌, ◌++◌, Option, none, some, ◌==◌, if◌then◌else◌}

abbrev pub Params : Type 0
Params = List (String × String)

unfoldable pub get : String → Params → Option String
get k [] = none
get k ((j, v) ∷ p) = let rest = get k p in if j == k then some v else rest

unfoldable pub get_all : String → Params → List String
get_all k [] = []
get_all k ((j, v) ∷ p) = let rest = get_all k p in if j == k then v ∷ rest else rest

unfoldable pub delete : String → Params → Params
delete k [] = []
delete k ((j, v) ∷ p) = let rest = delete k p in if j == k then rest else (j, v) ∷ rest

-- The first entry of the name takes the value, and the others go.
unfoldable pub set : String → String → Params → Params
set k v [] = (k, v) ∷ []
set k v ((j, w) ∷ p) = let rest = set k v p in if j == k then (k, v) ∷ delete k p else (j, w) ∷ rest

unfoldable pub append : String → String → Params → Params
append k v p = p ++ (k, v) ∷ []

-- `values.forEach((value) => params.append(k, value))`
unfoldable pub append_each : String → List String → Params → Params
append_each k [] p = p
append_each k (v ∷ vs) p = append_each k vs (append k v p)
