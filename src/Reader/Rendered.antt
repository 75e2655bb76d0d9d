-- ===== src/Reader/Rendered.antt =====
-- The controls and the detail view of the RFC reader through every sequence of events.
use inc_ql.Base.{
  String, List, [], ◌∷◌, Option, none, some, Bool, true, false, not, ◌&&◌, ◌||◌, if◌then◌else◌,
  length, has, Bool-cases, inl, inr, ◌≡◌, refl, sym, ◌∙◌,
}
use inc_ql.Params.{Params}
use inc_ql.Catalog.{RfcRecord, State, Collator, ids}
use inc_ql.Reader.Panels.{Panels}
use inc_ql.Reader.Controls.{
  controls_of, summary_of, summary_label, compact_status_label, full_status_label,
}
use inc_ql.Reader.Detail.{render_detail}
use inc_ql.Reader.Session.{
  Setup, Reader, Row, Entry, HistoryMode, push, replace, write_url, apply_controls, apply_filters,
  resolve_selection, sync_list_selection, prepare_filter_change, filters_changed, visible_records,
  record_by_id, row_by_id, select_found, select_record, requested, settle, read_url,
}
use inc_ql.Reader.Events.{
  Event, ListKey, choose_scope, choose_status, choose_sort, toggle_tag, toggle_detail_tag,
  remove_first_tag, clear_tags, type_query, url_timer_fires, reset, click_row, press_key,
  press_back, go_back, go_forward, resize, panel, enter, arrow_down, arrow_up, home_key, end_key,
  other_key, filter_by, on_remove_first_tag, on_clear_tags, typed, on_query, on_url_timer, on_reset,
  open_selected, on_key, on_popstate, move_back, move_forward, on_back, on_resize, step, run, fresh,
  initialize,
}

-- The controls show the state, and the detail view is that of its record, with the buttons of its tags
-- pressed as the filters have them and the number of visible records on the button that goes back.
pub record IsRendered (p : Setup) (r : Reader) : Type 0 where
  pub controls_shown : r.controls ≡ controls_of p.collator p.records r.state
  pub detail_rendered :
      r.detail_view ≡ render_detail p.records r.state.tags (length r.visible) r.shown

-- The controls do not show the selection.
controls-reselect :
    (c : Collator) (records : List RfcRecord) (s : State) (id : String) (explicit : Bool)
    → controls_of c records (record s { selected_id = id; selected_explicitly = explicit })
      ≡ controls_of c records s
unfolding controls_of summary_of summary_label compact_status_label full_status_label
controls-reselect c records s id explicit = refl

module _ (p : Setup) where
  controls-resolve :
      (visible : List RfcRecord) (s : State)
      → controls_of p.collator p.records s
        ≡ controls_of p.collator p.records (resolve_selection visible s)
  unfolding resolve_selection
  controls-resolve visible s = elim (Bool-cases (has (ids visible) s.selected_id)) [
    | inl h ↦ rw h refl
    | inr h ↦ rw h (sym (controls-reselect p.collator p.records s _ false))
  ]

  tags-resolve :
      (visible : List RfcRecord) (s : State) → (resolve_selection visible s).tags ≡ s.tags
  unfolding resolve_selection
  tags-resolve visible s = elim (Bool-cases (has (ids visible) s.selected_id)) [
    | inl h ↦ rw h refl
    | inr h ↦ rw h refl
  ]

  -- The controls are shown where they were before: filtering leaves them alone.
  apply_filters-IsRendered :
      (r : Reader)
      → r.controls ≡ controls_of p.collator p.records r.state
      → IsRendered p (apply_filters p r)
  unfolding apply_filters sync_list_selection
  apply_filters-IsRendered r e = record {
    controls_shown = e ∙ controls-resolve (visible_records p r.state) r.state;
    detail_rendered = refl;
  }

  write_url-IsRendered :
      (mode : HistoryMode) (mobile : Bool) (r : Reader)
      → IsRendered p r
      → IsRendered p (write_url mode mobile r)
  unfolding write_url
  write_url-IsRendered push mobile r h = record {
    controls_shown = h.controls_shown;
    detail_rendered = h.detail_rendered;
  }
  write_url-IsRendered replace mobile r h = record {
    controls_shown = h.controls_shown;
    detail_rendered = h.detail_rendered;
  }

  -- Only the selection and what does not show it changed.
  pub reselect-IsRendered :
      (r r' : Reader) (id : String) (explicit : Bool)
      → IsRendered p r
      → r'.state ≡ (record r.state { selected_id = id; selected_explicitly = explicit })
      → r'.controls ≡ r.controls
      → r'.detail_view ≡ render_detail p.records r.state.tags (length r'.visible) r'.shown
      → IsRendered p r'
  reselect-IsRendered r r' id explicit h s c d = record {
    controls_shown =
        c
        ∙ h.controls_shown
        ∙ rw s (sym (controls-reselect p.collator p.records r.state id explicit));
    detail_rendered = rw s d;
  }

  branch-IsRendered :
      (b : Bool) (r r' : Reader)
      → IsRendered p r
      → IsRendered p r'
      → IsRendered p (if b then r else r')
  branch-IsRendered true r r' h h' = h
  branch-IsRendered false r r' h h' = h'

  select_found-IsRendered :
      (target_id : String) (row : Option Row) (found : Option RfcRecord) (show_detail : Bool)
      (r : Reader)
      → IsRendered p r
      → IsRendered p (select_found p row found target_id show_detail r)
  unfolding select_found sync_list_selection
  select_found-IsRendered target_id (some w) (some found) show_detail r h =
      branch-IsRendered w.hidden r _ h (
        write_url-IsRendered (if r.narrow && show_detail then push else replace)
          (r.narrow && show_detail) _
          (branch-IsRendered (r.narrow && show_detail) _ _
            (reselect-IsRendered r _ target_id (not r.narrow || show_detail) h refl refl refl)
            (reselect-IsRendered r _ target_id (not r.narrow || show_detail) h refl refl refl)))
  select_found-IsRendered target_id none _ show_detail r h = h
  select_found-IsRendered target_id (some w) none show_detail r h = h

  select_record-IsRendered :
      (target : Option String) (show_detail : Bool) (r : Reader)
      → IsRendered p r
      → IsRendered p (select_record p target show_detail r)
  unfolding select_record
  select_record-IsRendered none show_detail r h = h
  select_record-IsRendered (some target_id) show_detail r h =
      select_found-IsRendered target_id (row_by_id r.rows target_id)
        (record_by_id p.records target_id) show_detail r h

  filter_by-IsRendered : (s : State) (r : Reader) → IsRendered p (filter_by p s r)
  unfolding filter_by filters_changed
  filter_by-IsRendered s r = write_url-IsRendered push false _ (apply_filters-IsRendered _ refl)

  on_remove_first_tag-IsRendered : (r : Reader) → IsRendered p (on_remove_first_tag p r)
  unfolding on_remove_first_tag
  on_remove_first_tag-IsRendered r =
      write_url-IsRendered push false _ (apply_filters-IsRendered _ refl)

  -- A change of the panels shows nothing else.
  panels-IsRendered :
      (panels : Panels) (r : Reader) → IsRendered p r → IsRendered p (record r { panels = panels })
  panels-IsRendered panels r h = record {
    controls_shown = h.controls_shown;
    detail_rendered = h.detail_rendered;
  }

  on_clear_tags-IsRendered : (r : Reader) → IsRendered p (on_clear_tags p r)
  unfolding on_clear_tags
  on_clear_tags-IsRendered r =
      panels-IsRendered _ _ (filter_by-IsRendered (record r.state { tags = [] }) r)

  typed-controls :
      (text : String) (r : Reader)
      → r.controls ≡ controls_of p.collator p.records r.state
      → (typed text r).controls ≡ controls_of p.collator p.records (typed text r).state
  unfolding controls_of summary_of summary_label compact_status_label full_status_label
  typed-controls text r e = rw e refl

  prepare_filter_change-controls :
      (r : Reader)
      → r.controls ≡ controls_of p.collator p.records r.state
      → (prepare_filter_change r).controls
        ≡ controls_of p.collator p.records (prepare_filter_change r).state
  unfolding prepare_filter_change
  prepare_filter_change-controls r e = elim (Bool-cases r.narrow) [
    | inl n ↦
        rw n (e ∙ sym (controls-reselect p.collator p.records r.state r.state.selected_id false))
    | inr n ↦ rw n e
  ]

  on_query-IsRendered :
      (text : String) (r : Reader) → IsRendered p r → IsRendered p (on_query p text r)
  unfolding on_query
  on_query-IsRendered text r h =
      let filtered =
        apply_filters-IsRendered (prepare_filter_change (typed text r)) (
          prepare_filter_change-controls (typed text r) (typed-controls text r h.controls_shown)) in
      record {
        controls_shown = filtered.controls_shown;
        detail_rendered = filtered.detail_rendered;
      }

  on_url_timer-IsRendered : (r : Reader) → IsRendered p r → IsRendered p (on_url_timer p r)
  unfolding on_url_timer
  on_url_timer-IsRendered r h =
      branch-IsRendered r.url_timer _ _
        (write_url-IsRendered replace false (record r { url_timer = false })
          (record { controls_shown = h.controls_shown; detail_rendered = h.detail_rendered }))
        h

  on_reset-IsRendered : (r : Reader) → IsRendered p (on_reset p r)
  unfolding on_reset
  on_reset-IsRendered r = write_url-IsRendered push false _ (apply_filters-IsRendered _ refl)

  open_selected-IsRendered :
      (found : Option RfcRecord) (r : Reader)
      → IsRendered p r
      → IsRendered p (open_selected p found r)
  unfolding open_selected
  open_selected-IsRendered none r h = h
  open_selected-IsRendered (some found) r h =
      branch-IsRendered r.narrow _ _ (select_record-IsRendered (some found.id) true r h)
        (record { controls_shown = h.controls_shown; detail_rendered = h.detail_rendered })

  on_key-IsRendered : (key : ListKey) (r : Reader) → IsRendered p r → IsRendered p (on_key p key r)
  unfolding on_key
  on_key-IsRendered enter r h =
      open_selected-IsRendered (record_by_id p.records r.state.selected_id) r h
  on_key-IsRendered other_key r h = h
  on_key-IsRendered arrow_down r h = select_record-IsRendered _ false r h
  on_key-IsRendered arrow_up r h = select_record-IsRendered _ false r h
  on_key-IsRendered home_key r h = select_record-IsRendered _ false r h
  on_key-IsRendered end_key r h = select_record-IsRendered _ false r h

  settle-IsRendered : (s : State) (r : Reader) → IsRendered p (settle p s r)
  unfolding settle
  settle-IsRendered s r =
      let filtered = apply_filters-IsRendered (apply_controls p (record r { state = s })) refl in
      record {
        controls_shown = filtered.controls_shown;
        detail_rendered = filtered.detail_rendered;
      }

  read_url-IsRendered : (preserve : String) (r : Reader) → IsRendered p (read_url p preserve r)
  unfolding read_url
  read_url-IsRendered preserve r =
      let settled = settle-IsRendered (requested p r.current.params preserve) r in
      branch-IsRendered _ _ _ (write_url-IsRendered replace false _ settled) settled

  on_popstate-IsRendered : (r : Reader) → IsRendered p (on_popstate p r)
  unfolding on_popstate
  on_popstate-IsRendered r = read_url-IsRendered _ _

  move_back-IsRendered :
      (es : List Entry) (r : Reader) → IsRendered p r → IsRendered p (move_back p es r)
  unfolding move_back
  move_back-IsRendered [] r h = h
  move_back-IsRendered (e ∷ es) r h = on_popstate-IsRendered _

  move_forward-IsRendered :
      (es : List Entry) (r : Reader) → IsRendered p r → IsRendered p (move_forward p es r)
  unfolding move_forward
  move_forward-IsRendered [] r h = h
  move_forward-IsRendered (e ∷ es) r h = on_popstate-IsRendered _

  on_back-IsRendered : (r : Reader) → IsRendered p r → IsRendered p (on_back p r)
  unfolding on_back
  on_back-IsRendered r h =
      branch-IsRendered r.current.mobile_detail _ _ (move_back-IsRendered r.past r h) (
        write_url-IsRendered replace false _
          (reselect-IsRendered r _ r.state.selected_id false h refl refl h.detail_rendered))

  step-IsRendered : (e : Event) (r : Reader) → IsRendered p r → IsRendered p (step p e r)
  unfolding step on_resize
  step-IsRendered (choose_scope value) r h = filter_by-IsRendered _ r
  step-IsRendered (choose_status value) r h = filter_by-IsRendered _ r
  step-IsRendered (choose_sort value) r h = filter_by-IsRendered _ r
  step-IsRendered (toggle_tag key checked) r h = filter_by-IsRendered _ r
  step-IsRendered (toggle_detail_tag key) r h = filter_by-IsRendered _ r
  step-IsRendered remove_first_tag r h = on_remove_first_tag-IsRendered r
  step-IsRendered clear_tags r h = on_clear_tags-IsRendered r
  step-IsRendered (type_query text) r h = on_query-IsRendered text r h
  step-IsRendered url_timer_fires r h = on_url_timer-IsRendered r h
  step-IsRendered reset r h = on_reset-IsRendered r
  step-IsRendered (click_row id) r h = select_record-IsRendered (some id) r.narrow r h
  step-IsRendered (press_key key) r h = on_key-IsRendered key r h
  step-IsRendered press_back r h = on_back-IsRendered r h
  step-IsRendered go_back r h = move_back-IsRendered r.past r h
  step-IsRendered go_forward r h = move_forward-IsRendered r.future r h
  step-IsRendered (resize narrow) r h = record {
    controls_shown = h.controls_shown;
    detail_rendered = h.detail_rendered;
  }
  step-IsRendered (panel g) r h = panels-IsRendered _ r h

  run-IsRendered : (es : List Event) (r : Reader) → IsRendered p r → IsRendered p (run p es r)
  unfolding run
  run-IsRendered [] r h = h
  run-IsRendered (e ∷ es) r h = run-IsRendered es (step p e r) (step-IsRendered e r h)

  -- Through every sequence of events.
  pub initialize-run-IsRendered :
      (params : Params) (narrow : Bool) (panels : Panels) (es : List Event)
      → IsRendered p (run p es (initialize p params narrow panels))
  unfolding initialize
  initialize-run-IsRendered params narrow panels es =
      run-IsRendered es (read_url p "" (fresh p params narrow panels))
        (read_url-IsRendered "" (fresh p params narrow panels))
