-- ===== src/Reader/Runs.antt =====
-- The view of the RFC reader through every sequence of events.
use inc_ql.Base.{String, List, [], ◌∷◌, Option, none, some, Bool, true, false, if◌then◌else◌}
use inc_ql.Params.{Params}
use inc_ql.Catalog.{RfcRecord, State}
use inc_ql.Reader.Panels.{Panels}
use inc_ql.Reader.Session.{Setup, Reader, Entry, push, replace, record_by_id, read_url}
use inc_ql.Reader.Shown.{
  IsShown, apply_filters-IsShown, write_url-IsShown, filters_changed-IsShown, implicit-IsShown,
  select_record-IsShown, read_url-IsShown,
}
use inc_ql.Reader.Events.{
  Event, ListKey, choose_scope, choose_status, choose_sort, toggle_tag, toggle_detail_tag,
  remove_first_tag, clear_tags, type_query, url_timer_fires, reset, click_row, press_key,
  press_back, go_back, go_forward, resize, panel, enter, arrow_down, arrow_up, home_key, end_key,
  other_key, filter_by, on_remove_first_tag, on_clear_tags, on_query, on_url_timer, on_reset,
  open_selected, on_key, on_popstate, move_back, move_forward, on_back, on_resize, step, run, fresh,
  initialize,
}

module _ (p : Setup) where
  -- What holds on both branches of a test.
  branch-IsShown :
      (b : Bool) (r r' : Reader) → IsShown p r → IsShown p r' → IsShown p (if b then r else r')
  branch-IsShown true r r' h h' = h
  branch-IsShown false r r' h h' = h'

  filter_by-IsShown : (s : State) (r : Reader) → IsShown p (filter_by p s r)
  unfolding filter_by
  filter_by-IsShown s r = filters_changed-IsShown p (record r { state = s })

  on_remove_first_tag-IsShown : (r : Reader) → IsShown p (on_remove_first_tag p r)
  unfolding on_remove_first_tag
  on_remove_first_tag-IsShown r = write_url-IsShown p push false _ (apply_filters-IsShown p _)

  on_clear_tags-IsShown : (r : Reader) → IsShown p (on_clear_tags p r)
  unfolding on_clear_tags
  on_clear_tags-IsShown r = filter_by-IsShown (record r.state { tags = [] }) r

  on_query-IsShown : (text : String) (r : Reader) → IsShown p (on_query p text r)
  unfolding on_query
  on_query-IsShown text r = apply_filters-IsShown p _

  on_url_timer-IsShown : (r : Reader) → IsShown p r → IsShown p (on_url_timer p r)
  unfolding on_url_timer
  on_url_timer-IsShown r h =
      branch-IsShown r.url_timer _ _
        (write_url-IsShown p replace false (record r { url_timer = false }) h) h

  on_reset-IsShown : (r : Reader) → IsShown p (on_reset p r)
  unfolding on_reset
  on_reset-IsShown r = write_url-IsShown p push false _ (apply_filters-IsShown p _)

  open_selected-IsShown :
      (found : Option RfcRecord) (r : Reader) → IsShown p r → IsShown p (open_selected p found r)
  unfolding open_selected
  open_selected-IsShown none r h = h
  open_selected-IsShown (some found) r h =
      branch-IsShown r.narrow _ _ (select_record-IsShown p (some found.id) true r h) h

  on_key-IsShown : (key : ListKey) (r : Reader) → IsShown p r → IsShown p (on_key p key r)
  unfolding on_key
  on_key-IsShown enter r h = open_selected-IsShown (record_by_id p.records r.state.selected_id) r h
  on_key-IsShown other_key r h = h
  on_key-IsShown arrow_down r h = select_record-IsShown p _ false r h
  on_key-IsShown arrow_up r h = select_record-IsShown p _ false r h
  on_key-IsShown home_key r h = select_record-IsShown p _ false r h
  on_key-IsShown end_key r h = select_record-IsShown p _ false r h

  on_popstate-IsShown : (r : Reader) → IsShown p (on_popstate p r)
  unfolding on_popstate
  on_popstate-IsShown r = read_url-IsShown p _ _

  move_back-IsShown : (es : List Entry) (r : Reader) → IsShown p r → IsShown p (move_back p es r)
  unfolding move_back
  move_back-IsShown [] r h = h
  move_back-IsShown (e ∷ es) r h = on_popstate-IsShown _

  move_forward-IsShown :
      (es : List Entry) (r : Reader) → IsShown p r → IsShown p (move_forward p es r)
  unfolding move_forward
  move_forward-IsShown [] r h = h
  move_forward-IsShown (e ∷ es) r h = on_popstate-IsShown _

  on_back-IsShown : (r : Reader) → IsShown p r → IsShown p (on_back p r)
  unfolding on_back
  on_back-IsShown r h =
      branch-IsShown r.current.mobile_detail _ _ (move_back-IsShown r.past r h)
        (write_url-IsShown p replace false _ (implicit-IsShown p false r h))

  -- Every event leaves what is shown in step with the state.
  pub step-IsShown : (e : Event) (r : Reader) → IsShown p r → IsShown p (step p e r)
  unfolding step on_resize
  step-IsShown (choose_scope value) r h = filter_by-IsShown _ r
  step-IsShown (choose_status value) r h = filter_by-IsShown _ r
  step-IsShown (choose_sort value) r h = filter_by-IsShown _ r
  step-IsShown (toggle_tag key checked) r h = filter_by-IsShown _ r
  step-IsShown (toggle_detail_tag key) r h = filter_by-IsShown _ r
  step-IsShown remove_first_tag r h = on_remove_first_tag-IsShown r
  step-IsShown clear_tags r h = on_clear_tags-IsShown r
  step-IsShown (type_query text) r h = on_query-IsShown text r
  step-IsShown url_timer_fires r h = on_url_timer-IsShown r h
  step-IsShown reset r h = on_reset-IsShown r
  step-IsShown (click_row id) r h = select_record-IsShown p (some id) r.narrow r h
  step-IsShown (press_key key) r h = on_key-IsShown key r h
  step-IsShown press_back r h = on_back-IsShown r h
  step-IsShown go_back r h = move_back-IsShown r.past r h
  step-IsShown go_forward r h = move_forward-IsShown r.future r h
  step-IsShown (resize narrow) r h = h
  step-IsShown (panel g) r h = h

  run-IsShown : (es : List Event) (r : Reader) → IsShown p r → IsShown p (run p es r)
  unfolding run
  run-IsShown [] r h = h
  run-IsShown (e ∷ es) r h = run-IsShown es (step p e r) (step-IsShown e r h)

  -- From whatever address the reader starts, and whatever events follow, the list shows the records
  -- that pass the filters of its state, in order; the selection is one of them if there is any; its
  -- row alone is marked, and it is announced; and the detail view holds its record.
  pub initialize-run-IsShown :
      (params : Params) (narrow : Bool) (panels : Panels) (es : List Event)
      → IsShown p (run p es (initialize p params narrow panels))
  unfolding initialize
  initialize-run-IsShown params narrow panels es =
      run-IsShown es (read_url p "" (fresh p params narrow panels))
        (read_url-IsShown p "" (fresh p params narrow panels))
