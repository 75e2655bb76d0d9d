-- ===== src/Reader/Events.antt =====
-- The handlers of the RFC reader, one for each event that it listens to.
use inc_ql.Base.{
  String, List, [], ◌∷◌, Option, none, some, Bool, true, false, not, ◌&&◌, ◌==◌, if◌then◌else◌, pos,
  negsuc, keep, has, head?, get_last?, is_blank,
}
use mathlib.Core.Option
use inc_ql.Params.{Params}
use inc_ql.Catalog.{RfcRecord, State, adjacent_record_id, set_tag}
use inc_ql.Reader.Panels.{Panels, Gesture, focus_search, navigated, gesture}
use inc_ql.Reader.Controls.{blank_controls}
use inc_ql.Reader.Session.{
  Setup, Reader, Entry, MobileView, results, detail, push, replace, default_state, write_url,
  apply_controls, apply_filters, prepare_filter_change, filters_changed, record_by_id,
  select_record, read_url,
}

pub data ListKey : Type 0 where
  enter arrow_down arrow_up home_key end_key other_key : ListKey

pub data Event : Type 0 where
  choose_scope choose_status choose_sort : String → Event
  toggle_tag : String → Bool → Event
  toggle_detail_tag : String → Event
  remove_first_tag clear_tags : Event
  type_query : String → Event
  url_timer_fires reset : Event
  click_row : String → Event
  press_key : ListKey → Event
  press_back go_back go_forward : Event
  resize : Bool → Event
  panel : Gesture → Event

-- The change of the state that a filter's handler makes first.
unfoldable pub with_scope : String → State → State
with_scope value s = record s { scope = value; status = if value == "all" then s.status else "" }

unfoldable pub with_status : String → State → State
with_status value s = record s { status = value; scope = if is_blank value then s.scope else "all" }

-- The chip of the first tag: `state.tags.filter((tag) => tag !== key)`.
unfoldable pub without_first : List String → List String
without_first [] = []
without_first (key ∷ tags) = keep (λ tag. not (tag == key)) (key ∷ tags)

-- `state.query = searchInput.value`: the field holds what is typed when its handler runs.
abbrev pub typed : String → Reader → Reader
typed text r = record r {
  state = (record r.state { query = text });
  controls = (record r.controls { search_value = text });
}

module _ (p : Setup) where
  unfoldable pub filter_by : State → Reader → Reader
  filter_by s r = filters_changed p (record r { state = s })

  unfoldable pub on_remove_first_tag : Reader → Reader
  on_remove_first_tag r =
      let s = record r.state { tags = without_first r.state.tags } in
      write_url push false (apply_filters p (apply_controls p (record r { state = s })))

  -- The press moves the focus to the search field, which opens the tag panel.
  unfoldable pub on_clear_tags : Reader → Reader
  on_clear_tags r =
      let cleared = filter_by (record r.state { tags = [] }) r in
      record cleared { panels = gesture (focus_search false) cleared.panels }

  unfoldable pub on_query : String → Reader → Reader
  on_query text r =
      let filtered = apply_filters p (prepare_filter_change (typed text r)) in
      record filtered { url_timer = true }

  unfoldable pub on_url_timer : Reader → Reader
  on_url_timer r =
      let fired = write_url replace false (record r { url_timer = false }) in
      if r.url_timer then fired else r

  unfoldable pub on_reset : Reader → Reader
  on_reset r =
      let s = record (default_state p.records) { selected_id = r.state.selected_id } in
      write_url push false (
        apply_filters p
          (record (apply_controls p (record r { state = s })) { mobile_view = results }))

  unfoldable pub open_selected : Option RfcRecord → Reader → Reader
  open_selected none r = r
  open_selected (some found) r =
      if r.narrow
      then select_record p (some found.id) true r
      else record r { opened = some found.href }

  unfoldable pub on_key : ListKey → Reader → Reader
  on_key enter r = open_selected (record_by_id p.records r.state.selected_id) r
  on_key arrow_down r =
      select_record p (some (adjacent_record_id r.visible r.state.selected_id (pos 1))) false r
  on_key arrow_up r =
      select_record p (some (adjacent_record_id r.visible r.state.selected_id (negsuc 0))) false r
  on_key home_key r =
      select_record p (Option.map (λ (f : RfcRecord). f.id) (head? r.visible)) false r
  on_key end_key r =
      select_record p (Option.map (λ (f : RfcRecord). f.id) (get_last? r.visible)) false r
  on_key other_key r = r

  unfoldable pub is_detail : MobileView → Bool
  is_detail detail = true
  is_detail results = false

  -- The handler of `popstate`, after the browser took another entry of its history.
  unfoldable pub on_popstate : Reader → Reader
  on_popstate r =
      let preserve = if r.narrow && is_detail r.mobile_view then r.state.selected_id else "" in
      read_url p preserve (record r { panels = gesture navigated r.panels })

  unfoldable pub move_back : List Entry → Reader → Reader
  move_back [] r = r
  move_back (e ∷ es) r =
      on_popstate (record r { past = es; current = e; future = r.current ∷ r.future })

  unfoldable pub move_forward : List Entry → Reader → Reader
  move_forward [] r = r
  move_forward (e ∷ es) r =
      on_popstate (record r { past = r.current ∷ r.past; current = e; future = es })

  -- The button of the detail view.
  unfoldable pub on_back : Reader → Reader
  on_back r =
      let returned = move_back r.past r in
      let s = record r.state { selected_explicitly = false } in
      let closed = write_url replace false (record r { state = s; mobile_view = results }) in
      if r.current.mobile_detail then returned else closed

  unfoldable pub on_resize : Bool → Reader → Reader
  on_resize narrow r = record r {
    narrow = narrow;
    mobile_view = if narrow && r.state.selected_explicitly then detail else results;
  }

  unfoldable pub step : Event → Reader → Reader
  step (choose_scope value) r = filter_by (with_scope value r.state) r
  step (choose_status value) r = filter_by (with_status value r.state) r
  step (choose_sort value) r = filter_by (record r.state { sort = value }) r
  step (toggle_tag key checked) r =
      filter_by (record r.state { tags = set_tag r.state.tags key checked }) r
  step (toggle_detail_tag key) r =
      filter_by (record r.state { tags = set_tag r.state.tags key (not (has r.state.tags key)) }) r
  step remove_first_tag r = on_remove_first_tag r
  step clear_tags r = on_clear_tags r
  step (type_query text) r = on_query text r
  step url_timer_fires r = on_url_timer r
  step reset r = on_reset r
  step (click_row id) r = select_record p (some id) r.narrow r
  step (press_key key) r = on_key key r
  step press_back r = on_back r
  step go_back r = move_back r.past r
  step go_forward r = move_forward r.future r
  step (resize narrow) r = on_resize narrow r
  step (panel g) r = record r { panels = gesture g r.panels }

  unfoldable pub run : List Event → Reader → Reader
  run [] r = r
  run (e ∷ es) r = run es (step e r)

  -- The reader before its first `readUrl`, at the address with these parameters.
  unfoldable pub fresh : Params → Bool → Panels → Reader
  fresh params narrow panels = record {
    state = default_state p.records;
    visible = p.records;
    rows = [];
    active_descendant = none;
    shown = none;
    detail_view = none;
    controls = blank_controls;
    result_count = "";
    reset_hidden = true;
    list_hidden = false;
    mobile_view = results;
    last_focused_id = (default_state p.records).selected_id;
    url_timer = false;
    past = [];
    current = record { params = params; mobile_detail = false };
    future = [];
    narrow = narrow;
    panels = panels;
    opened = none;
  }

  -- `initializeRfcReader`, for a catalog that is not empty.
  unfoldable pub initialize : Params → Bool → Panels → Reader
  initialize params narrow panels = read_url p "" (fresh params narrow panels)
