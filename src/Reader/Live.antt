-- ===== src/Reader/Live.antt =====
-- The filters and the address of the RFC reader through every sequence of events.
use inc_ql.Base.{
  String, List, [], ◌∷◌, Option, none, some, Bool, true, false, not, ◌||◌, ◌==◌, if◌then◌else◌, has,
  is_blank, ◌≡◌, refl, All,
}
use inc_ql.Params.{Params}
use inc_ql.Catalog.{RfcRecord, State, ids}
use inc_ql.Address.{Known, scopes, sorts, IsCanonical}
use inc_ql.Reader.Panels.{Panels}
use inc_ql.Reader.Session.{
  Setup, Reader, Entry, HistoryMode, push, replace, known_of, write_url, record_by_id,
  select_record, default_state, filters_changed,
}
use inc_ql.Reader.Filters.{
  IsKept, with_scope-IsCanonical, with_status-IsCanonical, with_sort-IsCanonical,
  with_tag-IsCanonical, with_tags-IsCanonical, without_first-IsCanonical, apply_filters-IsKept,
  write_url-IsKept, implicit-IsKept, prepare_filter_change-IsKept, select_record-IsKept,
  read_url-IsKept,
}
use inc_ql.Reader.Synced.{
  Agrees, reloaded, IsSynced, write_url-IsSynced, select_record-IsSynced, read_url-IsSynced,
}
use inc_ql.Reader.Events.{
  Event, ListKey, choose_scope, choose_status, choose_sort, toggle_tag, toggle_detail_tag,
  remove_first_tag, clear_tags, type_query, url_timer_fires, reset, click_row, press_key,
  press_back, go_back, go_forward, resize, panel, enter, arrow_down, arrow_up, home_key, end_key,
  other_key, filter_by, on_remove_first_tag, on_clear_tags, typed, on_query, on_url_timer, on_reset,
  open_selected, on_key, on_popstate, move_back, move_forward, on_back, on_resize, step, run, fresh,
  initialize,
}

-- The state is canonical, and a reload restores it.
abbrev pub IsLive : Setup → Reader → Type 0
IsLive p r = IsKept p r × IsSynced p r

-- What the controls of the page can ask for: a scope, status or order that is listed, and a tag of
-- the catalog.
abbrev pub IsOffered : Known → Event → Type 0
IsOffered known (choose_scope value) = (value == "all" || has scopes value) ≡ true
IsOffered known (choose_status value) = (is_blank value || has known.statuses value) ≡ true
IsOffered known (choose_sort value) = (is_blank value || has sorts value) ≡ true
IsOffered known (toggle_tag key checked) = has known.tags key ≡ true
IsOffered known (toggle_detail_tag key) = has known.tags key ≡ true
IsOffered known _ = Unit

module _ (p : Setup) (no_blank : has (ids p.records) "" ≡ false) where
  branch-IsLive :
      (b : Bool) (r r' : Reader) → IsLive p r → IsLive p r' → IsLive p (if b then r else r')
  branch-IsLive true r r' h h' = h
  branch-IsLive false r r' h h' = h'

  write_url-IsLive :
      (mode : HistoryMode) (mobile : Bool) (r : Reader)
      → IsKept p r
      → IsLive p (write_url mode mobile r)
  write_url-IsLive mode mobile r c =
      (write_url-IsKept p mode mobile r c, write_url-IsSynced p no_blank mode mobile r c)

  select_record-IsLive :
      (target : Option String) (show_detail : Bool) (r : Reader)
      → IsLive p r
      → IsLive p (select_record p target show_detail r)
  select_record-IsLive target show_detail r (c, y) = (
    select_record-IsKept p target show_detail r c,
    select_record-IsSynced p no_blank target show_detail r c y,
  )

  filter_by-IsLive :
      (s : State) (r : Reader) → IsCanonical (known_of p.records) s → IsLive p (filter_by p s r)
  unfolding filter_by filters_changed
  filter_by-IsLive s r c =
      write_url-IsLive push false _
        (apply_filters-IsKept p _ (prepare_filter_change-IsKept p (record r { state = s }) c))

  on_remove_first_tag-IsLive : (r : Reader) → IsKept p r → IsLive p (on_remove_first_tag p r)
  unfolding on_remove_first_tag
  on_remove_first_tag-IsLive r c = write_url-IsLive push false _ (
      apply_filters-IsKept p _ (
        without_first-IsCanonical (known_of p.records) r.state.tags r.state c c.tags_ordered
          c.tags_distinct c.tags_known))

  on_clear_tags-IsLive : (r : Reader) → IsKept p r → IsLive p (on_clear_tags p r)
  unfolding on_clear_tags
  on_clear_tags-IsLive r c =
      filter_by-IsLive (record r.state { tags = [] }) r
        (with_tags-IsCanonical (known_of p.records) [] r.state c tt tt refl)

  -- Another query.
  with_query-IsCanonical :
      (known : Known) (text : String) (s : State)
      → IsCanonical known s
      → IsCanonical known (record s { query = text })
  with_query-IsCanonical known text s c = record {
    scope_offered = c.scope_offered;
    status_offered = c.status_offered;
    status_scope = c.status_scope;
    sort_offered = c.sort_offered;
    tags_ordered = c.tags_ordered;
    tags_distinct = c.tags_distinct;
    tags_known = c.tags_known;
    selection_known = c.selection_known;
  }

  on_query-IsLive : (text : String) (r : Reader) → IsKept p r → IsLive p (on_query p text r)
  unfolding on_query
  on_query-IsLive text r c = (
    apply_filters-IsKept p _ (
        prepare_filter_change-IsKept p (typed text r)
          (with_query-IsCanonical (known_of p.records) text r.state c)),
    λ h. cc,
  )

  on_url_timer-IsLive : (r : Reader) → IsLive p r → IsLive p (on_url_timer p r)
  unfolding on_url_timer
  on_url_timer-IsLive r h =
      branch-IsLive r.url_timer _ _
        (write_url-IsLive replace false (record r { url_timer = false }) h.0) h

  on_reset-IsLive : (r : Reader) → IsLive p (on_reset p r)
  unfolding on_reset default_state
  on_reset-IsLive r = write_url-IsLive push false _ (
      apply_filters-IsKept p _ (record {
        scope_offered = refl;
        status_offered = refl;
        status_scope = refl;
        sort_offered = refl;
        tags_ordered = tt;
        tags_distinct = tt;
        tags_known = refl;
        selection_known = λ e. cc;
      }))

  open_selected-IsLive :
      (found : Option RfcRecord) (r : Reader) → IsLive p r → IsLive p (open_selected p found r)
  unfolding open_selected
  open_selected-IsLive none r h = h
  open_selected-IsLive (some found) r h =
      branch-IsLive r.narrow _ _ (select_record-IsLive (some found.id) true r h) h

  on_key-IsLive : (key : ListKey) (r : Reader) → IsLive p r → IsLive p (on_key p key r)
  unfolding on_key
  on_key-IsLive enter r h = open_selected-IsLive (record_by_id p.records r.state.selected_id) r h
  on_key-IsLive other_key r h = h
  on_key-IsLive arrow_down r h = select_record-IsLive _ false r h
  on_key-IsLive arrow_up r h = select_record-IsLive _ false r h
  on_key-IsLive home_key r h = select_record-IsLive _ false r h
  on_key-IsLive end_key r h = select_record-IsLive _ false r h

  on_popstate-IsLive : (r : Reader) → IsLive p (on_popstate p r)
  unfolding on_popstate
  on_popstate-IsLive r = (read_url-IsKept p _ _, read_url-IsSynced p no_blank _ _)

  move_back-IsLive : (es : List Entry) (r : Reader) → IsLive p r → IsLive p (move_back p es r)
  unfolding move_back
  move_back-IsLive [] r h = h
  move_back-IsLive (e ∷ es) r h = on_popstate-IsLive _

  move_forward-IsLive : (es : List Entry) (r : Reader) → IsLive p r → IsLive p (move_forward p es r)
  unfolding move_forward
  move_forward-IsLive [] r h = h
  move_forward-IsLive (e ∷ es) r h = on_popstate-IsLive _

  on_back-IsLive : (r : Reader) → IsLive p r → IsLive p (on_back p r)
  unfolding on_back
  on_back-IsLive r h =
      branch-IsLive r.current.mobile_detail _ _ (move_back-IsLive r.past r h)
        (write_url-IsLive replace false _ (implicit-IsKept p r h.0))

  step-IsLive :
      (e : Event) (r : Reader)
      → IsOffered (known_of p.records) e
      → IsLive p r
      → IsLive p (step p e r)
  unfolding step on_resize
  step-IsLive (choose_scope value) r o h =
      filter_by-IsLive _ r (with_scope-IsCanonical (known_of p.records) value r.state h.0 o)
  step-IsLive (choose_status value) r o h =
      filter_by-IsLive _ r (with_status-IsCanonical (known_of p.records) value r.state h.0 o)
  step-IsLive (choose_sort value) r o h =
      filter_by-IsLive _ r (with_sort-IsCanonical (known_of p.records) value r.state h.0 o)
  step-IsLive (toggle_tag key checked) r o h =
      filter_by-IsLive _ r (with_tag-IsCanonical (known_of p.records) key checked r.state h.0 o)
  step-IsLive (toggle_detail_tag key) r o h =
      filter_by-IsLive _ r
        (with_tag-IsCanonical (known_of p.records) key (not (has r.state.tags key)) r.state h.0 o)
  step-IsLive remove_first_tag r o h = on_remove_first_tag-IsLive r h.0
  step-IsLive clear_tags r o h = on_clear_tags-IsLive r h.0
  step-IsLive (type_query text) r o h = on_query-IsLive text r h.0
  step-IsLive url_timer_fires r o h = on_url_timer-IsLive r h
  step-IsLive reset r o h = on_reset-IsLive r
  step-IsLive (click_row id) r o h = select_record-IsLive (some id) r.narrow r h
  step-IsLive (press_key key) r o h = on_key-IsLive key r h
  step-IsLive press_back r o h = on_back-IsLive r h
  step-IsLive go_back r o h = move_back-IsLive r.past r h
  step-IsLive go_forward r o h = move_forward-IsLive r.future r h
  step-IsLive (resize narrow) r o h = h
  step-IsLive (panel g) r o h = h

  run-IsLive :
      (es : List Event) (r : Reader)
      → All (IsOffered (known_of p.records)) es
      → IsLive p r
      → IsLive p (run p es r)
  unfolding run
  run-IsLive [] r o h = h
  run-IsLive (e ∷ es) r (here, later) h = run-IsLive es (step p e r) later (step-IsLive e r here h)

  initialize-IsLive :
      (params : Params) (narrow : Bool) (panels : Panels)
      → IsLive p (initialize p params narrow panels)
  unfolding initialize
  initialize-IsLive params narrow panels = (
    read_url-IsKept p "" (fresh p params narrow panels),
    read_url-IsSynced p no_blank "" (fresh p params narrow panels),
  )

  -- From whatever address the reader starts, and whatever events of its controls follow, every filter
  -- has a value that the page offers, a status comes with the scope of all records, the tags are in
  -- order, and an explicit selection is of the catalog. No record has a blank id.
  pub initialize-run-IsKept :
      (params : Params) (narrow : Bool) (panels : Panels) (es : List Event)
      → All (IsOffered (known_of p.records)) es
      → IsKept p (run p es (initialize p params narrow panels))
  initialize-run-IsKept params narrow panels es o =
      (run-IsLive es _ o (initialize-IsLive params narrow panels)).0

  -- From whatever address the reader starts, and whatever events of its controls follow, unless a
  -- query waits to be written, a reload of the page at its address restores the filters and the
  -- explicit selection, but for the white space around the query. No record has a blank id.
  pub initialize-run-Agrees :
      (params : Params) (narrow : Bool) (panels : Panels) (es : List Event)
      → All (IsOffered (known_of p.records)) es
      → (run p es (initialize p params narrow panels)).url_timer ≡ false
      → (let r = run p es (initialize p params narrow panels) in
          Agrees (reloaded p r.current.params) r.state)
  initialize-run-Agrees params narrow panels es o written =
      (run-IsLive es _ o (initialize-IsLive params narrow panels)).1 written
