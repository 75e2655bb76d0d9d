-- ===== src/Reader/Filters.antt =====
-- The filters of the RFC reader stay among those that the page offers.
use inc_ql.Base.{
  String, List, [], ◌∷◌, Option, none, some, Bool, true, false, not, ◌&&◌, ◌||◌, ◌==◌,
  if◌then◌else◌, Bool-cases, inl, inr, keep_all, has, every, every_of_has, every-has, NoRepeat,
  IsSorted, text_le, is_blank, ◌≡◌, refl, arith, eq_iff, eq_refl,
}
use inc_ql.Params.{Params}
use inc_ql.Catalog.{RfcRecord, State, ids, set_tag, resolved_record_id}
use inc_ql.Catalog.Tags.{set_tag-IsSorted, has-set_tag}
use inc_ql.Address.{Known, scopes, sorts, read_params, IsCanonical}
use inc_ql.Address.Canonical.{read_params-IsCanonical, scope-offered, status-scope}
use inc_ql.Reader.Session.{
  Setup, Reader, Row, HistoryMode, push, replace, known_of, default_state, write_url,
  resolve_selection, apply_filters, apply_controls, sync_list_selection, prepare_filter_change,
  filters_changed, results, record_by_id, row_by_id, select_found, select_record, requested, settle,
  has_redundant_scope, is_dropped, read_url, visible_records,
}
use inc_ql.Reader.Events.{with_scope, with_status, without_first}

module _ (known : Known) where
  -- Another selection, of the catalog if it is explicit.
  pub reselect :
      (s : State) (id : String) (explicit : Bool)
      → IsCanonical known s
      → (explicit ≡ true → has known.records id ≡ true)
      → IsCanonical known (record s { selected_id = id; selected_explicitly = explicit })
  reselect s id explicit c h = record {
    scope_offered = c.scope_offered;
    status_offered = c.status_offered;
    status_scope = c.status_scope;
    sort_offered = c.sort_offered;
    tags_ordered = c.tags_ordered;
    tags_distinct = c.tags_distinct;
    tags_known = c.tags_known;
    selection_known = h;
  }

  scope_status_offered :
      (keeps : Bool) (status : String)
      → (is_blank status || has known.statuses status) ≡ true
      → (is_blank (if keeps then status else "")
          || has known.statuses (if keeps then status else ""))
        ≡ true
  scope_status_offered true status h = h
  scope_status_offered false status h = refl

  scope_overrides :
      (keeps : Bool) (status : String) → (is_blank (if keeps then status else "") || keeps) ≡ true
  scope_overrides true status = ground arith
  scope_overrides false status = refl

  pub with_scope-IsCanonical :
      (value : String) (s : State)
      → IsCanonical known s
      → (value == "all" || has scopes value) ≡ true
      → IsCanonical known (with_scope value s)
  unfolding with_scope
  with_scope-IsCanonical value s c offered = record {
    scope_offered = offered;
    status_offered = scope_status_offered (value == "all") s.status c.status_offered;
    status_scope = scope_overrides (value == "all") s.status;
    sort_offered = c.sort_offered;
    tags_ordered = c.tags_ordered;
    tags_distinct = c.tags_distinct;
    tags_known = c.tags_known;
    selection_known = c.selection_known;
  }

  pub with_status-IsCanonical :
      (value : String) (s : State)
      → IsCanonical known s
      → (is_blank value || has known.statuses value) ≡ true
      → IsCanonical known (with_status value s)
  unfolding with_status
  with_status-IsCanonical value s c offered = record {
    scope_offered = scope-offered (is_blank value) s.scope c.scope_offered;
    status_offered = offered;
    status_scope = status-scope (is_blank value) s.scope;
    sort_offered = c.sort_offered;
    tags_ordered = c.tags_ordered;
    tags_distinct = c.tags_distinct;
    tags_known = c.tags_known;
    selection_known = c.selection_known;
  }

  pub with_sort-IsCanonical :
      (value : String) (s : State)
      → IsCanonical known s
      → (is_blank value || has sorts value) ≡ true
      → IsCanonical known (record s { sort = value })
  with_sort-IsCanonical value s c offered = record {
    scope_offered = c.scope_offered;
    status_offered = c.status_offered;
    status_scope = c.status_scope;
    sort_offered = offered;
    tags_ordered = c.tags_ordered;
    tags_distinct = c.tags_distinct;
    tags_known = c.tags_known;
    selection_known = c.selection_known;
  }

  pub with_tags-IsCanonical :
      (tags : List String) (s : State)
      → IsCanonical known s
      → IsSorted text_le tags
      → NoRepeat tags
      → every (has known.tags) tags ≡ true
      → IsCanonical known (record s { tags = tags })
  with_tags-IsCanonical tags s c ordered distinct offered = record {
    scope_offered = c.scope_offered;
    status_offered = c.status_offered;
    status_scope = c.status_scope;
    sort_offered = c.sort_offered;
    tags_ordered = ordered;
    tags_distinct = distinct;
    tags_known = offered;
    selection_known = c.selection_known;
  }

  pub with_tag-IsCanonical :
      (key : String) (selected : Bool) (s : State)
      → IsCanonical known s
      → has known.tags key ≡ true
      → IsCanonical known (record s { tags = set_tag s.tags key selected })
  with_tag-IsCanonical key selected s c offered =
      let (ordered, distinct) = set_tag-IsSorted s.tags key selected c.tags_distinct in
      with_tags-IsCanonical (set_tag s.tags key selected) s c ordered distinct (
        every_of_has (has known.tags) _ λ a h. ground (
          arith,
          has-set_tag s.tags key a selected,
          eq_iff key a,
          every-has (has known.tags) s.tags a c.tags_known,
        ))

  keep_absent :
      (tags : List String) (key : String)
      → has tags key ≡ false
      → every (λ tag. not (tag == key)) tags ≡ true
  keep_absent [] key h = refl
  keep_absent (t ∷ tags) key h = ground (arith, keep_absent tags key)

  without_first_lem :
      (tags : List String) (key : String) → has tags key ≡ false → without_first (key ∷ tags) ≡ tags
  unfolding without_first
  without_first_lem tags key h =
      rw (eq_refl key) (keep_all (λ tag. not (tag == key)) tags (keep_absent tags key h))

  pub without_first-IsCanonical :
      (tags : List String) (s : State)
      → IsCanonical known s
      → IsSorted text_le tags
      → NoRepeat tags
      → every (has known.tags) tags ≡ true
      → IsCanonical known (record s { tags = without_first tags })
  unfolding without_first
  without_first-IsCanonical [] s c ordered distinct offered =
      with_tags-IsCanonical [] s c tt tt refl
  without_first-IsCanonical (key ∷ tags) s c (below, ordered) (new, distinct) offered =
      rw (without_first_lem tags key new)
        (with_tags-IsCanonical tags s c ordered distinct (ground arith))

  resolve_selection-IsCanonical :
      (visible : List RfcRecord) (s : State)
      → IsCanonical known s
      → IsCanonical known (resolve_selection visible s)
  unfolding resolve_selection
  resolve_selection-IsCanonical visible s c = elim (Bool-cases (has (ids visible) s.selected_id)) [
    | inl h ↦ rw h c
    | inr h ↦ rw h (reselect s (resolved_record_id visible s.selected_id) false c (λ e. cc))
  ]

-- The state of the reader is canonical for the filters of its catalog.
abbrev pub IsKept : Setup → Reader → Type 0
IsKept p r = IsCanonical (known_of p.records) r.state

module _ (p : Setup) where
  pub apply_filters-IsKept : (r : Reader) → IsKept p r → IsKept p (apply_filters p r)
  unfolding apply_filters sync_list_selection
  apply_filters-IsKept r c =
      resolve_selection-IsCanonical (known_of p.records) (visible_records p r.state) r.state c

  pub write_url-IsKept :
      (mode : HistoryMode) (mobile : Bool) (r : Reader)
      → IsKept p r
      → IsKept p (write_url mode mobile r)
  unfolding write_url
  write_url-IsKept push mobile r c = c
  write_url-IsKept replace mobile r c = c

  pub implicit-IsKept :
      (r : Reader)
      → IsKept p r
      → IsKept p (record r { state = (record r.state { selected_explicitly = false }) })
  implicit-IsKept r c = reselect (known_of p.records) r.state r.state.selected_id false c (λ e. cc)

  pub prepare_filter_change-IsKept : (r : Reader) → IsKept p r → IsKept p (prepare_filter_change r)
  unfolding prepare_filter_change
  prepare_filter_change-IsKept r c = prepared r.narrow
    where
      prepared :
          (b : Bool)
          → IsKept p (
              if b
              then record r {
                state = (record r.state { selected_explicitly = false });
                mobile_view = results;
              }
              else r)
      prepared true = implicit-IsKept r c
      prepared false = c

  pub filters_changed-IsKept : (r : Reader) → IsKept p r → IsKept p (filters_changed p r)
  unfolding filters_changed
  filters_changed-IsKept r c =
      write_url-IsKept push false _ (apply_filters-IsKept _ (prepare_filter_change-IsKept r c))

  pub record_by_id-has :
      (records : List RfcRecord) (id : String) (found : RfcRecord)
      → record_by_id records id ≡ some found
      → has (ids records) id ≡ true
  unfolding record_by_id
  record_by_id-has [] id found h = cc
  record_by_id-has (r ∷ rs) id found h = ground (arith, record_by_id-has rs id found)

  select_found-IsKept :
      (target_id : String) (row : Option Row) (record_ : Option RfcRecord) (show_detail : Bool)
      (r : Reader)
      → IsKept p r
      → record_by_id p.records target_id ≡ record_
      → IsKept p (select_found p row record_ target_id show_detail r)
  unfolding select_found known_of
  select_found-IsKept target_id (some w) (some found) show_detail r c in_catalog =
      let moved =
        reselect (known_of p.records) r.state target_id (not r.narrow || show_detail) c
          (λ e. record_by_id-has p.records target_id found in_catalog) in
      elim (Bool-cases w.hidden) [
        | inl gone ↦ rw gone c
        | inr seen ↦ elim (Bool-cases (r.narrow && show_detail)) [
          | inl mobile ↦ rw (seen, mobile) moved
          | inr wide ↦ rw (seen, wide) moved
        ]
      ]
  select_found-IsKept target_id none _ show_detail r c in_catalog = c
  select_found-IsKept target_id (some w) none show_detail r c in_catalog = c

  pub select_record-IsKept :
      (target : Option String) (show_detail : Bool) (r : Reader)
      → IsKept p r
      → IsKept p (select_record p target show_detail r)
  unfolding select_record
  select_record-IsKept none show_detail r c = c
  select_record-IsKept (some target_id) show_detail r c =
      select_found-IsKept target_id (row_by_id r.rows target_id) (record_by_id p.records target_id)
        show_detail r c refl

  pub requested-IsCanonical :
      (params : Params) (preserve : String)
      → IsCanonical (known_of p.records) (requested p params preserve)
  unfolding requested default_state
  requested-IsCanonical params preserve =
      let known = known_of p.records in
      let s = read_params params (default_state p.records) known in
      let c = read_params-IsCanonical params (default_state p.records) known refl in
      elim (Bool-cases (not s.selected_explicitly && has (ids p.records) preserve)) [
        | inl kept ↦ rw kept (reselect known s preserve s.selected_explicitly c (λ e. ground arith))
        | inr fresh ↦ rw fresh c
      ]

  pub settle-IsKept :
      (s : State) (r : Reader) → IsCanonical (known_of p.records) s → IsKept p (settle p s r)
  unfolding settle
  settle-IsKept s r c = apply_filters-IsKept (apply_controls p (record r { state = s })) c

  pub read_url-IsKept : (preserve : String) (r : Reader) → IsKept p (read_url p preserve r)
  unfolding read_url
  read_url-IsKept preserve r =
      let asked = requested p r.current.params preserve in
      let settled = settle p asked r in
      let kept = settle-IsKept asked r (requested-IsCanonical r.current.params preserve) in
      elim (Bool-cases (has_redundant_scope r.current.params || is_dropped asked settled.state)) [
        | inl rewrite ↦ rw rewrite (write_url-IsKept replace false settled kept)
        | inr stay ↦ rw stay kept
      ]
