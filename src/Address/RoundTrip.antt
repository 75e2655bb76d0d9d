-- ===== src/Address/RoundTrip.antt =====
-- What is read from the address that was written.
use inc_ql.Base.{
  String, List, Option, none, some, true, false, ◌||◌, ◌==◌, if◌then◌else◌, has, keep, dedup,
  dedup_of_NoRepeat, keep_all, sort, sort_of_IsSorted, text_le, is_blank, blank-eq, trim, ◌≡◌, refl,
  ◌∙◌, sym, eq_iff, Bool-cases, inl, inr,
}
use inc_ql.Params.{
  Params, get, get_all, get-delete, get-set, get_all-delete, get_all-set_ne, get-append_each_ne,
  get_all-append_each,
}
use inc_ql.Catalog.{State}
use inc_ql.Address.{
  Known, scopes, sorts, choose, select_from, or_blank, read_params, set_or_delete, write_params,
  IsCanonical,
}

-- `null` and "" are one to what reads a parameter.
abbrev or_none : String → Option String
or_none v = if is_blank v then none else some v

get-set_or_delete :
    (j k v : String) (p : Params)
    → get j (set_or_delete k v p) ≡ (if k == j then or_none v else get j p)
unfolding set_or_delete
get-set_or_delete j k v p = elim (Bool-cases (is_blank v)) [
  | inl blank ↦ rw blank (get-delete j k p)
  | inr full ↦ rw full (get-set j k v p)
]

get_all-set_or_delete :
    (j k v : String) (p : Params) → (k == j) ≡ false → get_all j (set_or_delete k v p) ≡ get_all j p
unfolding set_or_delete
get_all-set_or_delete j k v p h = elim (Bool-cases (is_blank v)) [
  | inl blank ↦ rw blank (get_all-delete j k p ∙ rw h)
  | inr full ↦ rw full (get_all-set_ne j k v p h)
]

ruleset reads = (get-set_or_delete, get-delete)

module _ (p : Params) (s : State) where
  get-write_q : get "q" (write_params p s) ≡ or_none (trim s.query)
  unfolding write_params
  get-write_q = simp (reads, get-append_each_ne)

  get-write_scope :
      get "scope" (write_params p s) ≡ or_none (if s.scope == "all" then "" else s.scope)
  unfolding write_params
  get-write_scope = simp (reads, get-append_each_ne)

  get-write_status : get "status" (write_params p s) ≡ or_none s.status
  unfolding write_params
  get-write_status = simp (reads, get-append_each_ne)

  get-write_sort : get "sort" (write_params p s) ≡ or_none s.sort
  unfolding write_params
  get-write_sort = simp (reads, get-append_each_ne)

  get-write_rfc :
      get "rfc" (write_params p s) ≡ or_none (if s.selected_explicitly then s.selected_id else "")
  unfolding write_params
  get-write_rfc = simp reads

  get_all-write_tag : get_all "tag" (write_params p s) ≡ sort text_le s.tags
  unfolding write_params
  get_all-write_tag =
      get_all-set_or_delete "tag" "rfc" _ _ refl
      ∙ get_all-append_each "tag" (sort text_le s.tags) _
      ∙ simp get_all-delete

choose_blank :
    (allowed : List String) (v fallback : String)
    → is_blank v ≡ true
    → choose allowed (or_none v) fallback ≡ fallback
unfolding choose
choose_blank allowed v fallback b = rw b

choose-has :
    (allowed : List String) (v fallback : String)
    → is_blank v ≡ false
    → has allowed v ≡ true
    → choose allowed (or_none v) fallback ≡ v
unfolding choose
choose-has allowed v fallback b h = rw (b, choose) (rw h)

-- A value that is blank or offered is read as it was written.
choose_offered :
    (allowed : List String) (v : String)
    → (is_blank v || has allowed v) ≡ true
    → choose allowed (or_none v) "" ≡ v
choose_offered allowed v h = elim (Bool-cases (is_blank v)) [
  | inl b ↦ choose_blank allowed v "" b ∙ sym (blank-eq v b)
  | inr b ↦ choose-has allowed v "" b (rw b at h)
]

scope_offered-is_blank : (v : String) → has scopes v ≡ true → is_blank v ≡ false
scope_offered-is_blank v h = elim (Bool-cases (is_blank v)) [
  | inl b ↦ let none_blank : has scopes "" ≡ true = rw (blank-eq v b) at h in cc
  | inr b ↦ b
]

choose_scope :
    (v : String)
    → (v == "all" || has scopes v) ≡ true
    → choose scopes (or_none (if v == "all" then "" else v)) "all" ≡ v
choose_scope v h = elim (Bool-cases (v == "all")) [
  | inl all ↦ rw all (choose_blank scopes "" "all" refl ∙ sym ((eq_iff v "all").0 all))
  | inr other ↦
      rw other
        (choose-has scopes v "all" (scope_offered-is_blank v (rw other at h)) (rw other at h))
]

select_from-write :
    (known : Known) (s next : State)
    → has known.records "" ≡ false
    → (s.selected_explicitly ≡ true → has known.records s.selected_id ≡ true)
    → select_from (or_none (if s.selected_explicitly then s.selected_id else "")) known next ≡ (
        if s.selected_explicitly
        then record next { selected_id = s.selected_id; selected_explicitly = true }
        else next)
unfolding select_from
select_from-write known s next no_blank h = elim (Bool-cases s.selected_explicitly) [
  | inr implicit ↦ rw implicit
  | inl explicit ↦ elim (Bool-cases (is_blank s.selected_id)) [
    | inl b ↦ let bad : has known.records "" ≡ true = rw (blank-eq _ b) at (h explicit) in cc
    | inr b ↦ rw explicit (rw (b, select_from) (rw b (rw (h explicit))))
  ]
]

sort-dedup-keep :
    (known : Known) (s : State)
    → IsCanonical known s
    → sort text_le (dedup (keep (has known.tags) (sort text_le s.tags))) ≡ s.tags
sort-dedup-keep known s c = rw (sort_of_IsSorted text_le s.tags c.tags_ordered) (
    rw (keep_all (has known.tags) s.tags c.tags_known) (
      rw (dedup_of_NoRepeat s.tags c.tags_distinct)
        (sort_of_IsSorted text_le s.tags c.tags_ordered)))

or_blank-or_none : (v : String) → or_blank (or_none v) ≡ v
unfolding or_blank
or_blank-or_none v = elim (Bool-cases (is_blank v)) [
  | inl b ↦ rw (b, or_blank) (sym (blank-eq v b))
  | inr b ↦ rw (b, or_blank)
]

scope_of_status :
    (known : Known) (s : State)
    → IsCanonical known s
    → (if is_blank s.status then s.scope else "all") ≡ s.scope
scope_of_status known s c = elim (Bool-cases (is_blank s.status)) [
  | inl b ↦ rw b
  | inr b ↦ rw b (sym ((eq_iff s.scope "all").0 (rw b at c.status_scope)))
]

-- The state that an address stands for, with the defaults for what it does not hold.
unfoldable pub restored : State → State → State
restored s defaults =
    let next = record s {
      query = trim s.query;
      selected_id = defaults.selected_id;
      selected_explicitly = defaults.selected_explicitly;
    } in
    if s.selected_explicitly
    then record next { selected_id = s.selected_id; selected_explicitly = true }
    else next

-- Whatever else the address holds, reading what was written gives every filter of a canonical state
-- back, its query trimmed, with the record that was selected explicitly or the default one. The
-- catalog has no blank id.
pub read_params-write_params :
    (params : Params) (s defaults : State) (known : Known)
    → IsCanonical known s
    → has known.records "" ≡ false
    → read_params (write_params params s) defaults known ≡ restored s defaults
unfolding read_params restored
read_params-write_params params s defaults known c no_blank =
    rw
      (
        get-write_q params s,
        get-write_scope params s,
        get-write_status params s,
        get-write_sort params s,
        get-write_rfc params s,
        get_all-write_tag params s,
      )
      (rw (select_from-write known s _ no_blank c.selection_known) (
        rw (
          choose_offered known.statuses s.status c.status_offered,
          choose_offered sorts s.sort c.sort_offered,
          choose_scope s.scope c.scope_offered,
          sort-dedup-keep known s c,
          or_blank-or_none (trim s.query),
          scope_of_status known s c,
        )))
