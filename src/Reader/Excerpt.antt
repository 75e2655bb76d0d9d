-- ===== src/Reader/Excerpt.antt =====
-- `excerpt`, and the text of a record that the search looks in. A length counts UTF-16 units; a cut
-- never falls inside a pair of them here, where the source leaves half a pair, which `searchable`
-- drops.
pub mod Bounds
use Prim.Native.Char.{code}
use Prim.Native.String.{[], ◌∷◌}
use inc_ql.Base.{
  ℕ, zero, suc, ◌+◌, ◌-◌, ◌*◌, ◌≤◌, ◌<◌, String, List, [], ◌∷◌, Option, none, some, Bool, true,
  false, if◌then◌else◌, ltb, leb, trim, template, join_with, ◌≡◌, refl, arith, Bool-cases, inl, inr,
}
use inc_ql.Catalog.{RfcRecord, Tag}

abbrev pub width : ℕ → ℕ
width c = if ltb c 65536 then 1 else 2

-- `value.length`
unfoldable pub text_size : String → ℕ
text_size [] = 0
text_size (c ∷ s) = width (code c) + text_size s

-- `value.slice(0, n)`
unfoldable pub take_units : ℕ → String → String
take_units n [] = []
take_units n (c ∷ s) =
    let rest = take_units (n - width (code c)) s in if leb (width (code c)) n then c ∷ rest else []

-- `value.lastIndexOf(" ")`; -1 is `none`
unfoldable pub last_space_from : ℕ → String → Option ℕ
last_space_from i [] = none
last_space_from i (c ∷ s) =
    let here = if leb 32 (code c) then if leb (code c) 32 then some i else none else none in
    elim (last_space_from (i + width (code c)) s) [ none ↦ here | some j ↦ some j ]

-- `boundary > limit * 0.72 ? boundary : limit`
unfoldable pub boundary_or : Option ℕ → ℕ → ℕ
boundary_or none limit = limit
boundary_or (some boundary) limit = if ltb (limit * 72) (boundary * 100) then boundary else limit

unfoldable pub excerpt : String → ℕ → String
unfolding last_space_from boundary_or
excerpt value limit =
    let candidate = take_units (limit + 1) value in
    let boundary = boundary_or (last_space_from 0 candidate) limit in
    let shortened = template (trim (take_units boundary candidate) ∷ "…" ∷ []) in
    if leb (text_size value) limit then value else shortened

labels_of : List Tag → List String
labels_of [] = []
labels_of (t ∷ ts) = t.label ∷ labels_of ts

-- `record.searchText`
unfoldable pub search_text_of : (String → String) → RfcRecord → String
unfolding labels_of excerpt
search_text_of searchable r = searchable (
    join_with " " (
      template ("RFC " ∷ r.id ∷ [])
      ∷ r.title
      ∷ r.status
      ∷ join_with " " (labels_of r.tags)
      ∷ excerpt r.summary 380
      ∷ excerpt r.motivation 460
      ∷ []))

unfoldable pub index_records : (String → String) → List RfcRecord → List RfcRecord
index_records searchable [] = []
index_records searchable (r ∷ rs) =
    (record r { search_text = search_text_of searchable r }) ∷ index_records searchable rs
