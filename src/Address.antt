-- ===== src/Address.antt =====
-- docs/javascripts/prismplane.js, `readParams` and `writeParams` of `rfcReaderContract`: the state of
-- the filters as the query of the page's address.
pub mod RoundTrip
pub mod Canonical
mod Examples
use inc_ql.Base.{
  String, List, [], ◌∷◌, Option, none, some, Bool, true, false, ◌||◌, ◌==◌, if◌then◌else◌, has,
  keep, dedup, every, sort, text_le, IsSorted, NoRepeat, is_blank, trim, ◌≡◌,
}
use inc_ql.Params.{Params, get, get_all, set, delete, append_each}
use inc_ql.Catalog.{State}

-- The ids, tags and status keys of the catalog.
pub record Known : Type 0 where
  pub statuses : List String
  pub tags : List String
  pub records : List String

abbrev pub scopes : List String
scopes = "active" ∷ "implemented" ∷ []

abbrev pub sorts : List String
sorts = "status-asc" ∷ "status-desc" ∷ []

-- `allowed.includes(value) ? value : fallback`, where `null` is in no list
unfoldable pub choose : List String → Option String → String → String
choose allowed none fallback = fallback
choose allowed (some value) fallback = if has allowed value then value else fallback

-- The selection: the record that the address names, if the catalog has it.
select_from : Option String → Known → State → State
select_from none known next = next
select_from (some selected) known next =
    if is_blank selected
    then next
    else if has known.records selected
    then record next { selected_id = selected; selected_explicitly = true }
    else next

or_blank : Option String → String
or_blank none = ""
or_blank (some v) = v

unfoldable pub read_params : Params → State → Known → State
unfolding choose select_from or_blank
read_params params defaults known =
    let status = choose known.statuses (get "status" params) "" in
    let scope = choose scopes (get "scope" params) "all" in
    select_from (get "rfc" params) known (record defaults {
      query = or_blank (get "q" params);
      scope = if is_blank status then scope else "all";
      status = status;
      sort = choose sorts (get "sort" params) "";
      tags = sort text_le (dedup (keep (has known.tags) (get_all "tag" params)));
    })

unfoldable pub set_or_delete : String → String → Params → Params
set_or_delete key value params = if is_blank value then delete key params else set key value params

unfoldable pub write_params : Params → State → Params
unfolding set_or_delete
write_params params s =
    let filters = set_or_delete "sort" s.sort (
      set_or_delete "status" s.status (
        set_or_delete "scope" (if s.scope == "all" then "" else s.scope)
          (set_or_delete "q" (trim s.query) params))) in
    set_or_delete "rfc" (if s.selected_explicitly then s.selected_id else "")
      (append_each "tag" (sort text_le s.tags) (delete "tag" (delete "topic" filters)))

-- What every state of the reader satisfies: each filter has a value that the page offers, a status
-- comes with no narrower scope, the tags are in order, and an explicit selection is of the catalog.
pub record IsCanonical (known : Known) (s : State) : Type 0 where
  pub scope_offered : (s.scope == "all" || has scopes s.scope) ≡ true
  pub status_offered : (is_blank s.status || has known.statuses s.status) ≡ true
  pub status_scope : (is_blank s.status || s.scope == "all") ≡ true
  pub sort_offered : (is_blank s.sort || has sorts s.sort) ≡ true
  pub tags_ordered : IsSorted text_le s.tags
  pub tags_distinct : NoRepeat s.tags
  pub tags_known : every (has known.tags) s.tags ≡ true
  pub selection_known : s.selected_explicitly ≡ true → has known.records s.selected_id ≡ true
