-- ===== src/Tour/Layers.antt =====
-- The table `layers` of the script, its order, and `architectureTourContract`.
use mathlib.Core.Option
use native.Mathlib.Decide.{dec_lt}
use native.Mathlib.Nat.{mod-lt}
use mathlib.Core.Path.{subst}
use inc_ql.Base.{
  ◌∙◌, ℕ, zero, suc, ◌+◌, ◌-◌, ◌%◌, ◌<◌, ◌≤◌, String, List, [], ◌∷◌, Option, none, some, Bool, true,
  false, not, ◌==◌, if◌then◌else◌, has, length, get_elem?, get_or, ◌≡◌, refl, ◌≢◌, ◌⊎◌, inl, inr,
  arith, eq_iff, Bool-cases,
}

pub record Layer : Type 0 where
  pub number : String
  pub title : String
  pub icon : String
  pub summary : String
  pub owns : List String
  pub excludes : List String
  pub input : String
  pub output : String

abbrev author : Layer
author = record {
  number = "01 · Checked intent";
  title = "Authoring surfaces";
  icon = "../shared/icons/code-braces-box.svg";
  summary =
      "Query blocks and typed carrier calls express relational work. Incan hosts the language extension; IncQL owns the relational vocabulary and public contracts.";
  owns = "Typed query intent" ∷ "IncQL relational vocabulary" ∷ "Checked carrier calls" ∷ [];
  excludes = "Backend selection" ∷ "Physical execution" ∷ "Portable exchange" ∷ [];
  input = "author intent";
  output = "checked carrier calls";
}

abbrev prism : Layer
prism = record {
  number = "02 · Semantic planning";
  title = "Prism";
  icon = "../shared/icons/vector-polyline.svg";
  summary =
      "IncQL's immutable internal logical plan state and the local source of schema, lineage, rewrites, and authored-origin mappings.";
  owns = "Authored graph state" ∷ "Canonical rewrites" ∷ "Origin mappings" ∷ [];
  excludes = "Public authoring syntax" ∷ "Portable interchange" ∷ "Runtime execution" ∷ [];
  input = "checked carrier calls";
  output = "rewritten Prism view";
}

abbrev substrait : Layer
substrait = record {
  number = "03 · Portable exchange";
  title = "Substrait";
  icon = "../shared/icons/file-tree-outline.svg";
  summary =
      "The portable logical Plan / Rel boundary carries relational meaning across the runtime seam without source bindings, backend selection, or local evidence.";
  owns = "Portable logical plan" ∷ "Schemas and expressions" ∷ "Extension declarations" ∷ [];
  excludes = "Source bindings" ∷ "plan_target evidence" ∷ "Physical execution policy" ∷ [];
  input = "rewritten Prism view";
  output = "Substrait Plan / Rel";
}

abbrev pub session : Layer
session = record {
  number = "04 · Bind + dispatch";
  title = "Session";
  icon = "../shared/icons/link-variant.svg";
  summary =
      "The runtime context validates logical reads, supplies registrations, selects the backend, dispatches the operation, and creates execution observations.";
  owns = "Source registrations" ∷ "Backend selection" ∷ "Execution observation" ∷ [];
  excludes = "Semantic rewrites" ∷ "Backend physical planning" ∷ "IncQL syntax" ∷ [];
  input = "Plan + registrations";
  output = "adapter dispatch";
}

abbrev adapter : Layer
adapter = record {
  number = "05 · Plan + execute";
  title = "Backend adapter";
  icon = "../shared/icons/database-cog-outline.svg";
  summary =
      "The concrete engine bridge performs backend-specific planning and execution, then returns a materialization or typed error without becoming the semantic owner.";
  owns = "Engine registration" ∷ "Physical planning" ∷ "Execution + materialization" ∷ [];
  excludes = "IncQL semantics" ∷ "Session policy" ∷ "Observation creation" ∷ [];
  input = "Plan + BackendRegistration[]";
  output = "materialization or typed error";
}

abbrev pub layers : List (String × Layer)
layers =
    ("author", author)
    ∷ ("prism", prism)
    ∷ ("substrait", substrait)
    ∷ ("session", session)
    ∷ ("adapter", adapter)
    ∷ []

-- `Object.keys(layers)`
abbrev pub layer_order : List String
layer_order = "author" ∷ "prism" ∷ "substrait" ∷ "session" ∷ "adapter" ∷ []

-- The names that every object of the language inherits.
abbrev pub inherited_names : List String
inherited_names =
    "constructor" ∷ "toString" ∷ "toLocaleString" ∷ "valueOf" ∷ "hasOwnProperty" ∷ "isPrototypeOf"
    ∷ "propertyIsEnumerable" ∷ "__proto__" ∷ "__defineGetter__" ∷ "__defineSetter__"
    ∷ "__lookupGetter__" ∷ "__lookupSetter__" ∷ []

-- What `layers[name]` is: a layer of the table, an inherited value with no fields of a layer, or
-- `undefined`.
pub data Lookup : Type 0 where
  own : Layer → Lookup
  inherited : Lookup
  missing : Lookup

unfoldable pub own_layer : String → List (String × Layer) → Option Layer
own_layer name [] = none
own_layer name ((k, l) ∷ rest) = if k == name then some l else own_layer name rest

unfoldable pub lookup_or_inherited : Option Layer → String → Lookup
lookup_or_inherited (some l) name = own l
lookup_or_inherited none name = if has inherited_names name then inherited else missing

unfoldable pub look_up : String → Lookup
unfolding own_layer lookup_or_inherited
look_up name = lookup_or_inherited (own_layer name layers) name

-- `name in layers`
unfoldable pub in_layers : String → Bool
in_layers name = elim (look_up name) [ own l ↦ true | inherited ↦ true | missing ↦ false ]

-- `layerOrder.indexOf(name)`, -1 being `none`
unfoldable pub index_of : String → List String → Option ℕ
index_of name [] = none
index_of name (k ∷ ks) =
    let rest = index_of name ks in if k == name then some zero else Option.map suc rest

-- `(currentIndex + 1) % length`, where -1 + 1 is 0
unfoldable pub successor : Option ℕ → ℕ → ℕ
successor none size = 0 % size
successor (some i) size = (i + 1) % size

unfoldable pub next_layer : String → String
unfolding index_of successor
next_layer current =
    get_or (get_elem? layer_order (successor (index_of current layer_order) (length layer_order)))
      ""

pub data Key : Type 0 where
  arrow_left arrow_right home end_key other : Key

-- For at least one button, so that `currentIndex - 1 + length` and `length - 1` are not negative.
unfoldable pub keyboard_index : ℕ → Key → ℕ → ℕ
keyboard_index current arrow_left size = (current + size - 1) % size
keyboard_index current arrow_right size = (current + 1) % size
keyboard_index current home size = 0
keyboard_index current end_key size = size - 1
keyboard_index current other size = current

abbrev pub starts_automatically : Bool → Bool
starts_automatically prefers_reduced_motion = not prefers_reduced_motion

mod_below : (a n : ℕ) → a < n → a % n ≡ a
mod_below a n h = grind arith

mod_once : (a n : ℕ) → n ≤ a → a < n + n → a % n ≡ a - n
mod_once a n h k = grind arith

right_of : (i n : ℕ) → i < n → ((i + 1) % n ≡ i + 1) ⊎ (((i + 1) % n ≡ 0) × (i + 1 ≡ n))
right_of i n h = elim (dec_lt (i + 1) n) [
  | yes p ↦ inl (mod_below (i + 1) n p)
  | no p ↦ inr (mod_once (i + 1) n (omega arith) (omega arith) ∙ omega arith, omega arith)
]

left_of :
    (i n : ℕ)
    → i < n
    → ((i ≡ 0) × ((i + n - 1) % n ≡ n - 1)) ⊎ ((0 < i) × ((i + n - 1) % n ≡ i - 1))
left_of i n h = elim (dec_lt 0 i) [
  | yes p ↦ inr (p, mod_once (i + n - 1) n (omega arith) (omega arith) ∙ omega arith)
  | no p ↦ inl (omega arith, mod_below (i + n - 1) n (omega arith) ∙ omega arith)
]

keyboard_index-lt : (i n : ℕ) (key : Key) → i < n → keyboard_index i key n < n
unfolding keyboard_index
keyboard_index-lt i n arrow_left h = omega (arith, mod-lt (i + n - 1) {m = n} (omega arith))
keyboard_index-lt i n arrow_right h = omega (arith, mod-lt (i + 1) {m = n} (omega arith))
keyboard_index-lt i n home h = omega arith
keyboard_index-lt i n end_key h = omega arith
keyboard_index-lt i n other h = h

left_right : (i n : ℕ) → i < n → ((i + 1) % n + n - 1) % n ≡ i
left_right i n h = elim (right_of i n h) [
  | inl e ↦ rw e (mod_once (i + 1 + n - 1) n (omega arith) (omega arith) ∙ omega arith)
  | inr (e, last) ↦ rw e (mod_below (0 + n - 1) n (omega arith) ∙ omega arith)
]

right_left : (i n : ℕ) → i < n → ((i + n - 1) % n + 1) % n ≡ i
right_left i n h = elim (left_of i n h) [
  | inl (zero_, e) ↦ rw e (mod_once (n - 1 + 1) n (omega arith) (omega arith) ∙ omega arith)
  | inr (pos_, e) ↦ rw e (mod_below (i - 1 + 1) n (omega arith) ∙ omega arith)
]

-- Every key keeps the index within the buttons, and the arrows undo each other, around the ends too.
pub keyboard_index_cycle :
    (current size : ℕ) (key : Key)
    → current < size
    → (keyboard_index current key size < size)
      × (keyboard_index (keyboard_index current arrow_right size) arrow_left size ≡ current)
      × (keyboard_index (keyboard_index current arrow_left size) arrow_right size ≡ current)
unfolding keyboard_index
keyboard_index_cycle current size key h =
    (keyboard_index-lt current size key h, left_right current size h, right_left current size h)

-- A test of each of the five names is a test of every name of the order.
of_layer_order :
    (P : String → Type 0)
    → P "author" × P "prism" × P "substrait" × P "session" × P "adapter"
    → (name : String) → has layer_order name ≡ true
    → P name
of_layer_order P h name listed = elim (Bool-cases ("author" == name)) [
  | inl e ↦ subst P ((eq_iff "author" name).0 e) h.0
  | inr e1 ↦ elim (Bool-cases ("prism" == name)) [
    | inl e ↦ subst P ((eq_iff "prism" name).0 e) h.1
    | inr e2 ↦ elim (Bool-cases ("substrait" == name)) [
      | inl e ↦ subst P ((eq_iff "substrait" name).0 e) h.2
      | inr e3 ↦ elim (Bool-cases ("session" == name)) [
        | inl e ↦ subst P ((eq_iff "session" name).0 e) h.3
        | inr e4 ↦ subst P ((eq_iff "adapter" name).0 (ground arith)) h.4
      ]
    ]
  ]
]

differ : (a b : String) → (a == b) ≡ false → a ≢ b
differ a b h e = ground (arith, eq_iff a b)

-- The tour goes through all layers in turn: from each it goes to another layer of the order, and
-- the fifth step comes back.
pub next_layer_cycle :
    (name : String)
    → has layer_order name ≡ true
    → (has layer_order (next_layer name) ≡ true)
      × (name ≢ next_layer name)
      × (next_layer (next_layer (next_layer (next_layer (next_layer name)))) ≡ name)
unfolding next_layer
next_layer_cycle = of_layer_order _ (
  (refl, differ "author" "prism" refl, refl),
  (refl, differ "prism" "substrait" refl, refl),
  (refl, differ "substrait" "session" refl, refl),
  (refl, differ "session" "adapter" refl, refl),
  (refl, differ "adapter" "author" refl, refl),
)
