-- ===== src/Reader/Back.antt =====
-- The way back from the detail view of a narrow window: a row is opened, and the button goes back.
use inc_ql.Base.{
  String, List, ◌∷◌, some, Bool, true, false, not, ◌&&◌, ◌||◌, if◌then◌else◌, has, trim, ◌≡◌, refl,
  ◌∙◌, arith, Bool-cases, ◌⊎◌, inl, inr,
}
use inc_ql.Params.{Params}
use inc_ql.Catalog.{RfcRecord, State, ids}
use inc_ql.Reader.Session.{
  Setup, Reader, Row, Entry, results, detail, replace, row_by_id, record_by_id, requested, settle,
  read_url, write_url, select_record, select_found, apply_filters, resolve_selection,
  visible_records, sync_list_selection, has_redundant_scope, is_dropped,
}
use inc_ql.Reader.Events.{on_back, move_back, on_popstate, is_detail}
use inc_ql.Reader.Panels.{gesture, navigated}
use inc_ql.Reader.Synced.{Agrees, reloaded}

-- The two states filter and order the catalog alike.
pub record SameFilters (a s : State) : Type 0 where
  pub query_same : trim a.query ≡ trim s.query
  pub scope_same : a.scope ≡ s.scope
  pub status_same : a.status ≡ s.status
  pub sort_same : a.sort ≡ s.sort
  pub tags_same : a.tags ≡ s.tags

resolve_selection-SameFilters :
    (visible : List RfcRecord) (s : State) → SameFilters (resolve_selection visible s) s
unfolding resolve_selection
resolve_selection-SameFilters visible s = elim (Bool-cases (has (ids visible) s.selected_id)) [
  | inl h ↦ rw h (record {
    query_same = refl;
    scope_same = refl;
    status_same = refl;
    sort_same = refl;
    tags_same = refl;
  })
  | inr h ↦ rw h (record {
    query_same = refl;
    scope_same = refl;
    status_same = refl;
    sort_same = refl;
    tags_same = refl;
  })
]

resolve_selection-implicit :
    (visible : List RfcRecord) (s : State)
    → s.selected_explicitly ≡ false
    → (resolve_selection visible s).selected_explicitly ≡ false
unfolding resolve_selection
resolve_selection-implicit visible s h = ground arith

if-SameFilters :
    (b : Bool) (s : State) (id : String)
    → SameFilters (if b then record s { selected_id = id } else s) s
if-SameFilters true s id = record {
  query_same = refl;
  scope_same = refl;
  status_same = refl;
  sort_same = refl;
  tags_same = refl;
}
if-SameFilters false s id = record {
  query_same = refl;
  scope_same = refl;
  status_same = refl;
  sort_same = refl;
  tags_same = refl;
}

SameFilters-trans : (a b c : State) → SameFilters a b → SameFilters b c → SameFilters a c
SameFilters-trans a b c h k = record {
  query_same = h.query_same ∙ k.query_same;
  scope_same = h.scope_same ∙ k.scope_same;
  status_same = h.status_same ∙ k.status_same;
  sort_same = h.sort_same ∙ k.sort_same;
  tags_same = h.tags_same ∙ k.tags_same;
}

SameFilters-Agrees : (a s : State) → Agrees a s → SameFilters a s
SameFilters-Agrees a s h = record {
  query_same = h.same_query;
  scope_same = h.same_scope;
  status_same = h.same_status;
  sort_same = h.same_sort;
  tags_same = h.same_tags;
}

module _ (p : Setup) where
  settle-results :
      (s : State) (r : Reader)
      → s.selected_explicitly ≡ false
      → (settle p s r).mobile_view ≡ results
  unfolding settle apply_filters sync_list_selection
  settle-results s r h = rw (resolve_selection-implicit (visible_records p s) s h) (ground arith)

  -- The state that the address asks for, where it names no record.
  requested-implicit :
      (params : Params) (preserve : String)
      → (reloaded p params).selected_explicitly ≡ false
      → (requested p params preserve).selected_explicitly ≡ false
  unfolding requested
  requested-implicit params preserve h = ground arith

  requested-SameFilters :
      (params : Params) (preserve : String)
      → SameFilters (requested p params preserve) (reloaded p params)
  unfolding requested
  requested-SameFilters params preserve =
      if-SameFilters (not (reloaded p params).selected_explicitly && has (ids p.records) preserve)
        (reloaded p params) preserve

  -- What `readUrl` leaves, whether or not it writes the address.
  read_url-cases :
      (preserve : String) (r : Reader)
      → (let settled = settle p (requested p r.current.params preserve) r in
          (read_url p preserve r ≡ settled)
          ⊎ (read_url p preserve r ≡ write_url replace false settled))
  unfolding read_url
  read_url-cases preserve r =
      elim (Bool-cases (
        has_redundant_scope r.current.params
        || is_dropped (requested p r.current.params preserve)
            (settle p (requested p r.current.params preserve) r).state)) [
              | inl h ↦ inr (rw h refl)
              | inr h ↦ inl (rw h refl)
            ]

  -- An address that names no record shows the results, under the filters that it names.
  read_url-results :
      (preserve : String) (r : Reader)
      → (reloaded p r.current.params).selected_explicitly ≡ false
      → ((read_url p preserve r).mobile_view ≡ results)
        × ((read_url p preserve r).past ≡ r.past)
        × SameFilters (read_url p preserve r).state (reloaded p r.current.params)
  unfolding write_url settle apply_filters sync_list_selection
  read_url-results preserve r h =
      let asked = requested p r.current.params preserve in
      let shown = settle-results asked r (requested-implicit r.current.params preserve h) in
      let same =
        SameFilters-trans (resolve_selection (visible_records p asked) asked) asked
          (reloaded p r.current.params)
          (resolve_selection-SameFilters (visible_records p asked) asked)
          (requested-SameFilters r.current.params preserve) in
      elim (read_url-cases preserve r) [
        | inl e ↦ rw e (shown, refl, same)
        | inr e ↦ rw e (shown, refl, same)
      ]

  -- A row that shows, opened in a narrow window, adds an entry to the history.
  select_record-detail :
      (id : String) (w : Row) (f : RfcRecord) (r : Reader)
      → r.narrow ≡ true
      → row_by_id r.rows id ≡ some w
      → w.hidden ≡ false
      → record_by_id p.records id ≡ some f
      → (let opened = select_record p (some id) true r in
          (opened.mobile_view ≡ detail)
          × (opened.narrow ≡ true)
          × (opened.state.selected_id ≡ id)
          × (opened.past ≡ r.current ∷ r.past)
          × (opened.current.mobile_detail ≡ true))
  unfolding select_record select_found write_url sync_list_selection
  select_record-detail id w f r n rw_ h fd = rw (rw_, fd, h, n) (refl, refl, refl, refl, refl)

  on_popstate-results :
      (r : Reader)
      → (reloaded p r.current.params).selected_explicitly ≡ false
      → ((on_popstate p r).mobile_view ≡ results)
        × ((on_popstate p r).past ≡ r.past)
        × SameFilters (on_popstate p r).state (reloaded p r.current.params)
  unfolding on_popstate
  on_popstate-results r h =
      read_url-results (if r.narrow && is_detail p r.mobile_view then r.state.selected_id else "")
        (record r { panels = gesture navigated r.panels }) h

  back-results :
      (e : Entry) (es : List Entry) (r : Reader)
      → r.current.mobile_detail ≡ true
      → r.past ≡ e ∷ es
      → (reloaded p e.params).selected_explicitly ≡ false
      → ((on_back p r).mobile_view ≡ results)
        × ((on_back p r).past ≡ es)
        × SameFilters (on_back p r).state (reloaded p e.params)
  unfolding on_back move_back
  back-results e es r m pe h =
      rw (m, pe)
        (on_popstate-results
          (record r {
            past = es;
            current = e;
            future = record { params = r.current.params; mobile_detail = true } ∷ r.future;
          })
          h)

  -- In a narrow window at an address that shows its state, with no record selected explicitly: a row that
  -- shows opens the detail view of its record, and the button of the detail view goes back to the
  -- results, to the same place in the history and to the same filters, but for the white space
  -- around the query.
  pub opened-back-results :
      (id : String) (w : Row) (f : RfcRecord) (r : Reader)
      → r.narrow ≡ true
      → r.state.selected_explicitly ≡ false
      → Agrees (reloaded p r.current.params) r.state
      → row_by_id r.rows id ≡ some w
      → w.hidden ≡ false
      → record_by_id p.records id ≡ some f
      → (let opened = select_record p (some id) true r in
          (opened.mobile_view ≡ detail)
          × (opened.state.selected_id ≡ id)
          × ((on_back p opened).mobile_view ≡ results)
          × ((on_back p opened).past ≡ r.past)
          × SameFilters (on_back p opened).state r.state)
  opened-back-results id w f r n i a we h fe =
      let (v, still, s, pe, m) = select_record-detail id w f r n we h fe in
      let (results_shown, same_past, same) =
        back-results r.current r.past (select_record p (some id) true r) m pe
          (a.same_explicit ∙ i) in
      (
        v,
        s,
        results_shown,
        same_past,
        SameFilters-trans (on_back p (select_record p (some id) true r)).state
            (reloaded p r.current.params) r.state same
            (SameFilters-Agrees (reloaded p r.current.params) r.state a),
      )
