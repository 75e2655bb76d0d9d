-- ===== src/Reader/Examples.antt =====
-- The RFC reader on the small catalog.
use inc_ql.Base.{some, List, [], ◌∷◌, true, false, ◌≡◌, refl, has, All}
use inc_ql.Params.{Params}
use inc_ql.Catalog.{RfcRecord, ids}
use inc_ql.Catalog.Examples.{make, samples, by_code}
use inc_ql.Address.{choose, read_params, set_or_delete, write_params}
use inc_ql.Base.{decimal, includes, text_le, trim, words}
use inc_ql.Catalog.{compare_records, matches, record_le, resolved_record_id, set_tag, sort_records}
use inc_ql.Params.{append, append_each, delete, get, get_all, set}
use inc_ql.Reader.Events.{filter_by, is_detail, move_back, on_popstate}
use inc_ql.Reader.Panels.{set_status_open, set_tag_panel_open}
use inc_ql.Reader.Session.{
  active_row, all_tags, apply_filters, count_text, default_state, filters_changed,
  has_redundant_scope, is_dropped, is_plain, mark_rows, place_rows, prepare_filter_change,
  record_by_id, requested, resolve_selection, row_by_id, select_found, select_record, settle,
  status_keys, sync_list_selection, truthy, visible_records, write_url,
}
use inc_ql.Catalog.Examples.{compare_texts}
use inc_ql.Reader.Panels.{
  Panels, Gesture, IsExclusive, gesture, gestures, focus_search, press_status, gestures-IsExclusive,
}
use inc_ql.Reader.Session.{Setup, Reader, Row, results, detail, known_of, read_url}
use inc_ql.Reader.Again.{apply_filters_idem}
use inc_ql.Reader.Back.{SameFilters, opened-back-results}
use inc_ql.Reader.Shown.{IsShown}
use inc_ql.Reader.Filters.{IsKept}
use inc_ql.Reader.Synced.{Agrees, reloaded}
use inc_ql.Reader.Events.{
  Event, toggle_tag, click_row, go_back, on_back, step, run, initialize, fresh,
}
use inc_ql.Reader.Runs.{initialize-run-IsShown}
use inc_ql.Reader.Live.{IsOffered, initialize-run-IsKept, initialize-run-Agrees}

abbrev pub setup : Setup
setup = record { records = samples; collator = by_code; searchable = λ text. text }

abbrev pub closed : Panels
closed = record {
  has_tags = true;
  tags_open = false;
  tags_expanded = false;
  status_open = false;
  status_expanded = false;
  toggle_queued = false;
}

abbrev pub address : Params
address = ("status", "draft") ∷ ("scope", "active") ∷ ("rfc", "003") ∷ []

abbrev pub visit : List Event
visit = toggle_tag "sql" true ∷ click_row "001" ∷ go_back ∷ []

pub offered : All (IsOffered (known_of samples)) visit
unfolding known_of
offered = (refl, (tt, (tt, tt)))

pub no_blank : has (ids samples) "" ≡ false
no_blank = refl

initialize-run-IsShown_example :
    IsShown setup (run setup visit (initialize setup address false closed))
initialize-run-IsShown_example = initialize-run-IsShown setup address false closed visit

initialize-run-IsKept_example :
    IsKept setup (run setup visit (initialize setup address false closed))
initialize-run-IsKept_example =
    initialize-run-IsKept setup no_blank address false closed visit offered

-- After the visit no query waits, the status of the first address filters again, and the first of its
-- records is selected, as the selection that the address asked for is filtered out.
visited :
    let r = run setup visit (initialize setup address false closed) in
    (r.url_timer ≡ false) × (r.state.status ≡ "draft") × (r.state.selected_id ≡ "001")
unfolding known_of choose set_or_delete write_params decimal includes text_le trim words
    compare_records matches record_le resolved_record_id set_tag append append_each delete get
    get_all set sort_records read_params is_detail move_back on_popstate filter_by set_status_open
    set_tag_panel_open gesture active_row all_tags count_text default_state is_dropped is_plain
    mark_rows record_by_id select_found status_keys sync_list_selection truthy write_url
    select_record row_by_id filters_changed apply_filters place_rows prepare_filter_change
    has_redundant_scope settle resolve_selection visible_records requested compare_texts run step
    initialize fresh read_url
visited = (refl, refl, refl)

initialize-run-Agrees_example :
    let r = run setup visit (initialize setup address false closed) in
    Agrees (reloaded setup r.current.params) r.state
initialize-run-Agrees_example =
    initialize-run-Agrees setup no_blank address false closed visit offered visited.0

closed-IsExclusive : IsExclusive closed
closed-IsExclusive = record {
  one_open = λ t s. t;
  tags_exist = λ t. refl;
  tags_announced = refl;
  status_announced = λ q. refl;
}

abbrev browsing : List Gesture
browsing = focus_search false ∷ press_status ∷ []

gestures-IsExclusive_example : IsExclusive (gestures browsing closed)
gestures-IsExclusive_example = gestures-IsExclusive browsing closed closed-IsExclusive

-- The page of a narrow window, at the address of all records.
abbrev narrow_page : Reader
narrow_page = run setup [] (initialize setup [] true closed)

abbrev third_record : RfcRecord
third_record = make "002" "Draft" "draft" "active" []

abbrev second_row : Row
second_row = record { id = "002"; hidden = false; selected = false }

narrow_page-shows :
    (narrow_page.url_timer ≡ false)
    × (narrow_page.narrow ≡ true)
    × (narrow_page.state.selected_explicitly ≡ false)
    × (row_by_id narrow_page.rows "002" ≡ some second_row)
    × (record_by_id samples "002" ≡ some third_record)
unfolding known_of choose set_or_delete write_params decimal includes text_le trim words
    compare_records matches record_le resolved_record_id set_tag append append_each delete get
    get_all set sort_records read_params is_detail move_back on_popstate filter_by set_status_open
    set_tag_panel_open gesture active_row all_tags count_text default_state is_dropped is_plain
    mark_rows record_by_id select_found status_keys sync_list_selection truthy write_url
    select_record row_by_id filters_changed apply_filters place_rows prepare_filter_change
    has_redundant_scope settle resolve_selection visible_records requested compare_texts run step
    initialize fresh read_url
narrow_page-shows = (refl, refl, refl, refl, refl)

narrow_page-Agrees : Agrees (reloaded setup narrow_page.current.params) narrow_page.state
narrow_page-Agrees = initialize-run-Agrees setup no_blank [] true closed [] tt narrow_page-shows.0

opened-back-results_example :
    let opened = select_record setup (some "002") true narrow_page in
    (opened.mobile_view ≡ detail)
    × (opened.state.selected_id ≡ "002")
    × ((on_back setup opened).mobile_view ≡ results)
    × ((on_back setup opened).past ≡ narrow_page.past)
    × SameFilters (on_back setup opened).state narrow_page.state
opened-back-results_example =
    opened-back-results setup "002" second_row third_record narrow_page narrow_page-shows.1
      narrow_page-shows.2 narrow_page-Agrees narrow_page-shows.3 refl narrow_page-shows.4

apply_filters_idem_example :
    apply_filters setup (apply_filters setup narrow_page) ≡ apply_filters setup narrow_page
apply_filters_idem_example = apply_filters_idem setup narrow_page
