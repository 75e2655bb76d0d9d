-- ===== src/Address/Canonical.antt =====
-- What `readParams` returns, whatever the address holds.
use inc_ql.Base.{
  String, List, Option, none, some, Bool, true, false, ◌||◌, ◌==◌, if◌then◌else◌, has, keep, dedup,
  every, every_of_has, sort, text_le, text_le_total, sort-IsSorted, NoRepeat-sort, NoRepeat-dedup,
  has-sort, has-dedup, has-keep, is_blank, ◌≡◌, refl, arith, Bool-cases, inl, inr,
}
use inc_ql.Params.{Params, get, get_all}
use inc_ql.Catalog.{State}
use inc_ql.Address.{Known, scopes, sorts, choose, select_from, read_params, IsCanonical}

choose-offered :
    (allowed : List String) (v : Option String)
    → (is_blank (choose allowed v "") || has allowed (choose allowed v "")) ≡ true
unfolding choose
choose-offered allowed none = refl
choose-offered allowed (some v) = elim (Bool-cases (has allowed v)) [
  | inl h ↦ rw h (rw h (ground arith))
  | inr h ↦ rw h
]

choose-scope :
    (v : Option String)
    → (choose scopes v "all" == "all" || has scopes (choose scopes v "all")) ≡ true
unfolding choose
choose-scope none = refl
choose-scope (some v) = elim (Bool-cases (has scopes v)) [
  | inl h ↦ rw h (rw h (ground arith))
  | inr h ↦ rw h
]

pub scope-offered :
    (blank : Bool) (scope : String)
    → (scope == "all" || has scopes scope) ≡ true
    → ((if blank then scope else "all") == "all" || has scopes (if blank then scope else "all"))
      ≡ true
scope-offered true scope h = h
scope-offered false scope h = refl

pub status-scope :
    (blank : Bool) (scope : String) → (blank || (if blank then scope else "all") == "all") ≡ true
status-scope true scope = refl
status-scope false scope = refl

tags-known :
    (known tags : List String)
    → every (has known) (sort text_le (dedup (keep (has known) tags))) ≡ true
tags-known known tags = every_of_has (has known) _ λ a h. ground (
  arith,
  has-sort text_le (dedup (keep (has known) tags)) a,
  has-dedup (keep (has known) tags) a,
  has-keep (has known) tags a,
)

select_from-IsCanonical :
    (selected : Option String) (known : Known) (s : State)
    → IsCanonical known s
    → IsCanonical known (select_from selected known s)
unfolding select_from
select_from-IsCanonical none known s c = c
select_from-IsCanonical (some id) known s c = elim (Bool-cases (is_blank id)) [
  | inl b ↦ rw b c
  | inr b ↦ rw b (elim (Bool-cases (has known.records id)) [
    | inr absent ↦ rw absent c
    | inl present ↦ rw present (record {
      scope_offered = c.scope_offered;
      status_offered = c.status_offered;
      status_scope = c.status_scope;
      sort_offered = c.sort_offered;
      tags_ordered = c.tags_ordered;
      tags_distinct = c.tags_distinct;
      tags_known = c.tags_known;
      selection_known = λ _. present;
    })
  ])
]

-- Whatever the address holds, the state that is read from it is canonical: unknown filters are
-- dropped, a status resets the scope, and only a record of the catalog is selected explicitly. The
-- defaults select none explicitly.
pub read_params-IsCanonical :
    (params : Params) (defaults : State) (known : Known)
    → defaults.selected_explicitly ≡ false
    → IsCanonical known (read_params params defaults known)
unfolding read_params
read_params-IsCanonical params defaults known implicit =
    select_from-IsCanonical (get "rfc" params) known _ (record {
      scope_offered =
          scope-offered (is_blank (choose known.statuses (get "status" params) "")) _
            (choose-scope (get "scope" params));
      status_offered = choose-offered known.statuses (get "status" params);
      status_scope =
          status-scope (is_blank (choose known.statuses (get "status" params) ""))
            (choose scopes (get "scope" params) "all");
      sort_offered = choose-offered sorts (get "sort" params);
      tags_ordered =
          sort-IsSorted text_le text_le_total
            (dedup (keep (has known.tags) (get_all "tag" params)));
      tags_distinct =
          NoRepeat-sort text_le _ (NoRepeat-dedup (keep (has known.tags) (get_all "tag" params)));
      tags_known = tags-known known.tags (get_all "tag" params);
      selection_known = λ e. cc;
    })
