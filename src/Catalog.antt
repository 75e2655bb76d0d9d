-- ===== src/Catalog.antt =====
-- docs/javascripts/prismplane.js, `rfcReaderContract`: the pure operations of the RFC reader on the
-- catalog of records and on the state of its filters.
pub mod Moves
pub mod Tags
pub mod Order
pub mod Examples
use Prim.Native.Nat.{Ordering}
use mathlib.Core.Option
use inc_ql.Base.{
  ℕ, zero, suc, ◌-◌, String, List, [], ◌∷◌, ◌++◌, Option, none, some, Bool, true, false, not, ◌&&◌,
  ◌||◌, ◌==◌, if◌then◌else◌, length, get_elem?, head?, get_or, any, every, keep, has, dedup, map,
  sort, text_le, words, includes, is_blank, ℤ, pos, pos_part, ◌+ℤ◌, min_ℤ, max_ℤ, ◌≡◌,
}

pub record Tag : Type 0 where
  pub key : String
  pub label : String

-- A link of the optional list `issue_links`; a field that it lacks is blank.
pub record SourceLink : Type 0 where
  pub url : String
  pub label : String

pub record RfcRecord : Type 0 where
  pub id : String
  pub title : String
  pub status : String
  pub status_key : String
  pub lifecycle : String
  pub created : String
  pub summary : String
  pub motivation : String
  pub href : String
  pub tags : List Tag
  pub search_text : String
  pub issue_links : List SourceLink
  pub related_ids : List String

-- The state of the filters and of the selection.
pub record State : Type 0 where
  pub query : String
  pub scope : String
  pub status : String
  pub sort : String
  pub tags : List String
  pub selected_id : String
  pub selected_explicitly : Bool

-- `records.map((record) => record.id)`
abbrev pub ids : List RfcRecord → List String
ids [] = []
ids (r ∷ rs) = r.id ∷ ids rs

-- `records.findIndex((record) => record.id === id)`; -1 is `none`
unfoldable pub find_index : List RfcRecord → String → Option ℕ
find_index [] id = none
find_index (r ∷ rs) id =
    let rest = find_index rs id in if r.id == id then some zero else Option.map suc rest

-- `Math.max(0, Math.min(records.length - 1, index + offset))`, for at least one record
unfoldable pub next_index : ℕ → ℕ → ℤ → ℕ
next_index size index offset =
    pos_part (max_ℤ (pos 0) (min_ℤ (pos (size - 1)) (pos index +ℤ offset)))

unfoldable pub id_at : List RfcRecord → ℕ → String
id_at rs i = elim (get_elem? rs i) [ none ↦ "" | some r ↦ r.id ]

-- The id to move to, for the index that was found.
land_at : List RfcRecord → String → Option ℕ → ℤ → String
unfolding next_index id_at
land_at records first none offset = first
land_at records first (some index) offset = id_at records (next_index (length records) index offset)

unfoldable pub adjacent_record_id : List RfcRecord → String → ℤ → String
unfolding find_index land_at
adjacent_record_id [] current_id offset = ""
adjacent_record_id (r ∷ rs) current_id offset =
    land_at (r ∷ rs) r.id (find_index (r ∷ rs) current_id) offset

-- `records[0]?.id ?? ""`
abbrev pub first_id : List RfcRecord → String
first_id [] = ""
first_id (r ∷ rs) = r.id

unfoldable pub resolved_record_id : List RfcRecord → String → String
resolved_record_id records selected_id =
    if has (ids records) selected_id then selected_id else first_id records

unfoldable pub set_tag : List String → String → Bool → List String
set_tag tags key selected =
    sort text_le
      (if selected then dedup (tags ++ key ∷ []) else keep (λ tag. not (tag == key)) tags)

-- What `localeCompare` of the language's internationalisation library answers: the sign of a
-- comparison by number, of one that ignores case, and of the plain one. Each is consistent when its arguments swap.
pub record Collator : Type 0 where
  pub compare_id : String → String → Ordering
  pub compare_status : String → String → Ordering
  pub compare_label : String → String → Ordering

abbrev pub flip : Ordering → Ordering
flip Ordering.lt = Ordering.gt
flip Ordering.eq = Ordering.eq
flip Ordering.gt = Ordering.lt

pub record IsConsistent (c : Collator) : Type 0 where
  pub id_flip : (a b : String) → c.compare_id b a ≡ flip (c.compare_id a b)
  pub status_flip : (a b : String) → c.compare_status b a ≡ flip (c.compare_status a b)

abbrev pub not_after : Ordering → Bool
not_after Ordering.gt = false
not_after _ = true

-- `byStatus === 0 ? byId : byStatus * direction`
abbrev by_status_first : Ordering → Ordering → Bool → Ordering
by_status_first Ordering.eq by_id descending = by_id
by_status_first by_status by_id descending = if descending then flip by_status else by_status

module _ (c : Collator) where
  -- The comparator of `sortRecords`, for each value of `sort`.
  unfoldable pub compare_records : String → RfcRecord → RfcRecord → Ordering
  compare_records mode left right =
      if is_blank mode
      then c.compare_id left.id right.id
      else by_status_first (c.compare_status left.status right.status)
          (c.compare_id left.id right.id) (mode == "status-desc")

  -- The record may stand before the other.
  unfoldable pub record_le : String → RfcRecord → RfcRecord → Bool
  unfolding compare_records
  record_le mode left right = not_after (compare_records mode left right)

  unfoldable pub sort_records : List RfcRecord → String → List RfcRecord
  unfolding record_le
  sort_records records mode = sort (record_le mode) records

-- `new Set(record.tags.map((tag) => tag.key)).has(key)`
abbrev pub tag_keys : List Tag → List String
tag_keys [] = []
tag_keys (t ∷ ts) = t.key ∷ tag_keys ts

-- `normalize_search` is an argument of the source's function too.
unfoldable pub matches : RfcRecord → State → (String → String) → Bool
matches record_ state normalize_search =
    every (λ token. includes record_.search_text token) (words (normalize_search state.query))
    && (state.scope == "all" || record_.lifecycle == state.scope)
    && (is_blank state.status || record_.status_key == state.status)
    && every (λ tag. has (tag_keys record_.tags) tag) state.tags
