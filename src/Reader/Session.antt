-- ===== src/Reader/Session.antt =====
-- The state of the RFC reader, `applyFilters`, `selectRecord`, `readUrl`, `writeUrl` and the
-- handlers. The ids of the catalog are taken to be distinct, so a row is found by its id.
use inc_ql.Base.{
  String, List, [], ◌∷◌, ◌++◌, Option, none, some, Bool, false, not, ◌&&◌, ◌||◌, ◌==◌,
  if◌then◌else◌, ℕ, find, find_last, keep, has, is_empty, is_blank, length, decimal, ltb,
}
use Prim.Native.String
use inc_ql.Params.{Params, get}
use inc_ql.Catalog.{
  RfcRecord, State, Collator, ids, tag_keys, first_id, sort_records, matches, resolved_record_id,
}
use inc_ql.Address.{Known, read_params, write_params}
use inc_ql.Reader.Panels.{Panels}
use inc_ql.Reader.Controls.{Controls, controls_of}
use inc_ql.Reader.Detail.{Detail, render_detail}

-- What the reader is made for: the parsed catalog, the collator of the browser, and `searchable`,
-- which rests on the Unicode tables of the browser.
pub record Setup : Type 0 where
  pub records : List RfcRecord
  pub collator : Collator
  pub searchable : String → String

-- A row of the list, in the order of the page.
pub record Row : Type 0 where
  pub id : String
  pub hidden : Bool
  pub selected : Bool

pub data MobileView : Type 0 where
  results detail : MobileView

-- An entry of the browser's history: the query of its address, and `ppRfcDetail` of its state.
pub record Entry : Type 0 where
  pub params : Params
  pub mobile_detail : Bool

-- The message for an empty list shows exactly when `list_hidden`. `narrow` is `media.matches`; `opened` is the address given to `location.assign`.
pub record Reader : Type 0 where
  pub state : State
  pub visible : List RfcRecord
  pub rows : List Row
  pub active_descendant : Option String
  pub shown : Option RfcRecord
  pub detail_view : Option Detail
  pub controls : Controls
  pub result_count : String
  pub reset_hidden : Bool
  pub list_hidden : Bool
  pub mobile_view : MobileView
  pub last_focused_id : String
  pub url_timer : Bool
  pub past : List Entry
  pub current : Entry
  pub future : List Entry
  pub narrow : Bool
  pub panels : Panels
  pub opened : Option String

pub data HistoryMode : Type 0 where
  push replace : HistoryMode

-- `tagsByKey`, over all records
unfoldable pub all_tags : List RfcRecord → List String
all_tags [] = []
all_tags (r ∷ rs) = tag_keys r.tags ++ all_tags rs

unfoldable pub status_keys : List RfcRecord → List String
status_keys [] = []
status_keys (r ∷ rs) = r.status_key ∷ status_keys rs

unfoldable pub known_of : List RfcRecord → Known
unfolding all_tags status_keys
known_of records = record {
  statuses = status_keys records;
  tags = all_tags records;
  records = ids records;
}

unfoldable pub default_state : List RfcRecord → State
default_state records = record {
  query = "";
  scope = "all";
  status = "";
  sort = "";
  tags = [];
  selected_id = first_id records;
  selected_explicitly = false;
}

unfoldable pub write_url : HistoryMode → Bool → Reader → Reader
write_url push mobile_detail r = record r {
  past = r.current ∷ r.past;
  current = record {
    params = write_params r.current.params r.state;
    mobile_detail = mobile_detail;
  };
  future = [];
}
write_url replace mobile_detail r = record r {
  current = record {
    params = write_params r.current.params r.state;
    mobile_detail = mobile_detail;
  };
}

-- `recordById.get(id)`
unfoldable pub record_by_id : List RfcRecord → String → Option RfcRecord
record_by_id records id = find_last (λ r. r.id == id) records

unfoldable pub row_by_id : List Row → String → Option Row
row_by_id rows id = find (λ (w : Row). w.id == id) rows

-- The rows in the order of the sorted records, those of no visible record hidden.
unfoldable pub place_rows : List RfcRecord → List String → String → List Row
place_rows [] visible_ids selected_id = []
place_rows (r ∷ rs) visible_ids selected_id =
    record {
      id = r.id;
      hidden = not (has visible_ids r.id);
      selected = r.id == selected_id && has visible_ids r.id;
    }
    ∷ place_rows rs visible_ids selected_id

unfoldable pub mark_rows : String → List Row → List Row
mark_rows selected_id [] = []
mark_rows selected_id (w ∷ ws) =
    (record w { selected = w.id == selected_id && not w.hidden }) ∷ mark_rows selected_id ws

unfoldable pub active_row : Option Row → Option String
active_row none = none
active_row (some w) = if w.hidden then none else some w.id

-- `syncListSelection`
unfoldable pub sync_list_selection : Reader → Reader
unfolding mark_rows
sync_list_selection r = record r {
  rows = mark_rows r.state.selected_id r.rows;
  active_descendant = active_row (row_by_id r.rows r.state.selected_id);
}

unfoldable pub count_text : ℕ → String
count_text n =
    String.◌++◌ (decimal n)
      (if ltb n 2 && ltb 0 n then " matching design record" else " matching design records")

-- No filter and no order is chosen.
unfoldable pub is_plain : State → Bool
is_plain s =
    is_blank s.query && s.scope == "all" && is_blank s.status && is_blank s.sort && is_empty s.tags

-- The records that pass the filters, in order.
unfoldable pub visible_records : Setup → State → List RfcRecord
visible_records p s =
    keep (λ r. matches r s p.searchable) (sort_records p.collator p.records s.sort)

-- The selection that stays if its record is visible, and else moves to the first visible record.
unfoldable pub resolve_selection : List RfcRecord → State → State
resolve_selection visible s = if has (ids visible) s.selected_id then s else record s {
  selected_id = resolved_record_id visible s.selected_id;
  selected_explicitly = false;
}

-- `applyControls`
abbrev pub apply_controls : Setup → Reader → Reader
apply_controls p r = record r { controls = controls_of p.collator p.records r.state }

-- `applyFilters`
unfoldable pub apply_filters : Setup → Reader → Reader
unfolding count_text is_plain
apply_filters p r =
    let visible = visible_records p r.state in
    let s = resolve_selection visible r.state in
    let placed = record r {
      state = s;
      visible = visible;
      rows =
          place_rows (sort_records p.collator p.records r.state.sort) (ids visible) s.selected_id;
    } in
    let synced = sync_list_selection placed in
    record synced {
      result_count = count_text (length visible);
      reset_hidden = is_plain s;
      list_hidden = is_empty visible;
      shown = record_by_id p.records s.selected_id;
      detail_view =
          render_detail p.records s.tags (length visible) (record_by_id p.records s.selected_id);
    }

-- `prepareFilterChange`
unfoldable pub prepare_filter_change : Reader → Reader
prepare_filter_change r =
    if r.narrow
    then record r {
      state = (record r.state { selected_explicitly = false });
      mobile_view = results;
    }
    else r

-- What each filter's handler ends with.
unfoldable pub filters_changed : Setup → Reader → Reader
filters_changed p r =
    write_url push false (apply_filters p (apply_controls p (prepare_filter_change r)))

-- `selectRecord(targetId, { showDetail })`; `undefined` is `none`
unfoldable pub select_found :
    Setup → Option Row → Option RfcRecord → String → Bool → Reader → Reader
unfolding sync_list_selection write_url
select_found p (some w) (some found) target_id show_detail r =
    let s = record r.state {
      selected_id = target_id;
      selected_explicitly = not r.narrow || show_detail;
    } in
    let moved = sync_list_selection (record r { state = s; last_focused_id = target_id }) in
    let seen = record moved {
      shown = some found;
      detail_view = render_detail p.records s.tags (length r.visible) (some found);
    } in
    let mobile = r.narrow && show_detail in
    let placed = if mobile then record seen { mobile_view = detail } else seen in
    let written = write_url (if mobile then push else replace) mobile placed in
    if w.hidden then r else written
select_found p _ _ target_id show_detail r = r

unfoldable pub select_record : Setup → Option String → Bool → Reader → Reader
unfolding select_found
select_record p none show_detail r = r
select_record p (some target_id) show_detail r =
    select_found p (row_by_id r.rows target_id) (record_by_id p.records target_id) target_id
      show_detail r

unfoldable pub truthy : Option String → Bool
truthy none = false
truthy (some v) = not (is_blank v)

-- The state that an address asks for, an implicit selection being kept where it can.
unfoldable pub requested : Setup → Params → String → State
requested p params preserve =
    let s = read_params params (default_state p.records) (known_of p.records) in
    if not s.selected_explicitly && has (ids p.records) preserve
    then record s { selected_id = preserve }
    else s

-- `readUrl` before it writes the address: the state that is asked for is filtered and shown.
unfoldable pub settle : Setup → State → Reader → Reader
settle p s r =
    let filtered = apply_filters p (apply_controls p (record r { state = s })) in
    record filtered {
      last_focused_id = filtered.state.selected_id;
      mobile_view = if r.narrow && filtered.state.selected_explicitly then detail else results;
    }

-- The address names a status with a scope, which the status overrides.
unfoldable pub has_redundant_scope : Params → Bool
unfolding truthy
has_redundant_scope params = truthy (get "status" params) && truthy (get "scope" params)

-- The explicit selection that was asked for did not survive the filters.
unfoldable pub is_dropped : State → State → Bool
is_dropped asked kept =
    asked.selected_explicitly
    && (not kept.selected_explicitly || not (kept.selected_id == asked.selected_id))

-- `readUrl`
unfoldable pub read_url : Setup → String → Reader → Reader
read_url p preserve r =
    let params = r.current.params in
    let asked = requested p params preserve in
    let settled = settle p asked r in
    let rewritten = write_url replace false settled in
    if has_redundant_scope params || is_dropped asked settled.state then rewritten else settled
