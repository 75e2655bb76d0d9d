-- ===== src/Reader/Shown.antt =====
-- What the reader shows is always what its state asks for.
use inc_ql.Base.{
  String, List, [], ◌∷◌, Option, none, some, Bool, true, false, not, ◌&&◌, ◌||◌, if◌then◌else◌,
  keep, has, ◌≡◌, refl, sym, ◌∙◌, ap, ◌⊎◌, inl, inr, arith, eq_iff, Bool-cases,
}
use inc_ql.Catalog.{RfcRecord, State, ids, sort_records, matches, resolved_record_id}
use inc_ql.Reader.Session.{
  Setup, Row, Reader, HistoryMode, push, replace, write_url, record_by_id, row_by_id, place_rows,
  mark_rows, active_row, sync_list_selection, visible_records, resolve_selection, apply_filters,
  apply_controls, filters_changed, select_found, select_record, read_url, requested, settle,
  has_redundant_scope, is_dropped,
}

-- The list holds the records that pass the filters, in order, with the others hidden; the selection
-- is visible if anything is; the row of the selection is the one marked and announced; and the
-- detail view shows its record.
pub record IsShownAs (p : Setup) (s : State) (visible : List RfcRecord) (rows : List Row)
    (active : Option String) (shown : Option RfcRecord) : Type 0 where
  pub visible_shown : visible ≡ visible_records p s
  pub rows_shown :
      rows ≡ place_rows (sort_records p.collator p.records s.sort) (ids visible) s.selected_id
  pub selection_visible :
      (has (ids visible) s.selected_id ≡ true) ⊎ ((visible ≡ []) × (s.selected_id ≡ ""))
  pub selection_announced :
      active ≡ (if has (ids visible) s.selected_id then some s.selected_id else none)
  pub detail_shown : shown ≡ record_by_id p.records s.selected_id

abbrev pub IsShown : Setup → Reader → Type 0
IsShown p r = IsShownAs p r.state r.visible r.rows r.active_descendant r.shown

mark_rows-place_rows :
    (rs : List RfcRecord) (visible_ids : List String) (old new : String)
    → mark_rows new (place_rows rs visible_ids old) ≡ place_rows rs visible_ids new
unfolding mark_rows place_rows
mark_rows-place_rows [] visible_ids old new = refl
mark_rows-place_rows (r ∷ rs) visible_ids old new =
    ground (arith, mark_rows-place_rows rs visible_ids old new)

active_row-place_rows :
    (rs : List RfcRecord) (visible_ids : List String) (old id : String)
    → active_row (row_by_id (place_rows rs visible_ids old) id)
      ≡ (if has (ids rs) id && has visible_ids id then some id else none)
unfolding active_row row_by_id place_rows
active_row-place_rows [] visible_ids old id = refl
active_row-place_rows (r ∷ rs) visible_ids old id =
    ground (arith, eq_iff r.id id, active_row-place_rows rs visible_ids old id)

-- A row that is found and not hidden is that of a visible record.
row-visible :
    (rs : List RfcRecord) (visible_ids : List String) (old id : String) (w : Row)
    → row_by_id (place_rows rs visible_ids old) id ≡ some w
    → w.hidden ≡ false
    → has visible_ids id ≡ true
unfolding row_by_id place_rows
row-visible [] visible_ids old id w found seen = cc
row-visible (r ∷ rs) visible_ids old id w found seen =
    ground (arith, eq_iff r.id id, row-visible rs visible_ids old id w)

ids-keep :
    (f : RfcRecord → Bool) (rs : List RfcRecord) (id : String)
    → has (ids (keep f rs)) id ≡ true
    → has (ids rs) id ≡ true
ids-keep f [] id h = h
ids-keep f (r ∷ rs) id h = ground (arith, ids-keep f rs id)

-- The visible records are of the sorted catalog.
visible-sorted :
    (p : Setup) (s : State) (id : String)
    → has (ids (visible_records p s)) id ≡ true
    → has (ids (sort_records p.collator p.records s.sort)) id ≡ true
unfolding visible_records
visible-sorted p s id h = ids-keep _ (sort_records p.collator p.records s.sort) id h

first-visible :
    (visible : List RfcRecord) (id : String)
    → has (ids visible) id ≡ false
    → (has (ids visible) (resolved_record_id visible id) ≡ true)
      ⊎ ((visible ≡ []) × (resolved_record_id visible id ≡ ""))
unfolding resolved_record_id
first-visible [] id h = inr (refl, refl)
first-visible (r ∷ rs) id h = inl (rw h (ground (arith, eq_iff r.id r.id)))

resolve_selection-visible :
    (visible : List RfcRecord) (s : State)
    → (has (ids visible) (resolve_selection visible s).selected_id ≡ true)
      ⊎ ((visible ≡ []) × ((resolve_selection visible s).selected_id ≡ ""))
unfolding resolve_selection
resolve_selection-visible visible s = elim (Bool-cases (has (ids visible) s.selected_id)) [
  | inl h ↦ inl (rw h h)
  | inr h ↦ rw h (first-visible visible s.selected_id h)
]

-- The filters are as they were, whatever happens to the selection.
pub visible-resolve :
    (p : Setup) (visible : List RfcRecord) (s : State)
    → visible_records p (resolve_selection visible s) ≡ visible_records p s
unfolding visible_records resolve_selection matches
visible-resolve p visible s = elim (Bool-cases (has (ids visible) s.selected_id)) [
  | inl h ↦ rw h
  | inr h ↦ rw h
]

pub sort-resolve :
    (visible : List RfcRecord) (s : State) → (resolve_selection visible s).sort ≡ s.sort
unfolding resolve_selection
sort-resolve visible s = ground arith

announced :
    (p : Setup) (s : State) (id : String)
    → active_row (
        row_by_id
          (place_rows (sort_records p.collator p.records s.sort) (ids (visible_records p s)) id)
          id)
      ≡ (if has (ids (visible_records p s)) id then some id else none)
announced p s id =
    active_row-place_rows (sort_records p.collator p.records s.sort) (ids (visible_records p s)) id
      id
    ∙ ground (arith, visible-sorted p s id)

-- Whatever the state is, after `applyFilters` it is shown.
pub apply_filters-IsShown : (p : Setup) (r : Reader) → IsShown p (apply_filters p r)
unfolding apply_filters sync_list_selection
apply_filters-IsShown p r =
    let visible = visible_records p r.state in
    let s = resolve_selection visible r.state in
    record {
      visible_shown = sym (visible-resolve p visible r.state);
      rows_shown =
          mark_rows-place_rows (sort_records p.collator p.records r.state.sort) (ids visible)
            s.selected_id s.selected_id
          ∙ ap
              (λ mode.
                place_rows (sort_records p.collator p.records mode) (ids visible) s.selected_id)
              (sym (sort-resolve visible r.state));
      selection_visible = resolve_selection-visible visible r.state;
      selection_announced = announced p r.state s.selected_id;
      detail_shown = refl;
    }

pub write_url-IsShown :
    (p : Setup) (mode : HistoryMode) (mobile : Bool) (r : Reader)
    → IsShown p r
    → IsShown p (write_url mode mobile r)
unfolding write_url
write_url-IsShown p push mobile r h = h
write_url-IsShown p replace mobile r h = h

pub filters_changed-IsShown : (p : Setup) (r : Reader) → IsShown p (filters_changed p r)
unfolding filters_changed
filters_changed-IsShown p r = write_url-IsShown p push false _ (apply_filters-IsShown p _)

-- Making the selection implicit changes nothing that is shown.
pub implicit-IsShown :
    (p : Setup) (explicit : Bool) (r : Reader)
    → IsShown p r
    → IsShown p (record r { state = (record r.state { selected_explicitly = explicit }) })
unfolding visible_records matches
implicit-IsShown p explicit r h = record {
  visible_shown = h.visible_shown;
  rows_shown = h.rows_shown;
  selection_visible = h.selection_visible;
  selection_announced = h.selection_announced;
  detail_shown = h.detail_shown;
}

module _ (p : Setup) (r : Reader) (target_id : String) (w : Row) (h : IsShown p r) where
  -- The rows and the announcement follow the selection of a visible record.
  moved-IsShown :
      (found : RfcRecord) (explicit : Bool)
      → row_by_id r.rows target_id ≡ some w
      → record_by_id p.records target_id ≡ some found
      → w.hidden ≡ false
      → IsShownAs p
          (record r.state { selected_id = target_id; selected_explicitly = explicit })
          r.visible
          (mark_rows target_id r.rows)
          (active_row (row_by_id r.rows target_id))
          (some found)
  unfolding visible_records matches
  moved-IsShown found explicit listed in_catalog seen =
      let listed' = rw h.rows_shown at listed in
      let visible : has (ids r.visible) target_id ≡ true =
        row-visible _ _ _ target_id w listed' seen in
      let in_list : has (ids (visible_records p r.state)) target_id ≡ true =
        rw h.visible_shown at visible in
      record {
        visible_shown = h.visible_shown;
        rows_shown = rw h.rows_shown (mark_rows-place_rows _ _ _ target_id);
        selection_visible = inl visible;
        selection_announced = rw h.rows_shown (
            active_row-place_rows _ (ids r.visible) _ target_id
            ∙ ground (arith, visible-sorted p r.state target_id, visible, in_list));
        detail_shown = sym in_catalog;
      }

select_found-IsShown :
    (p : Setup) (r : Reader) (target_id : String) (row : Option Row) (record_ : Option RfcRecord)
    (show_detail : Bool)
    → IsShown p r
    → row_by_id r.rows target_id ≡ row
    → record_by_id p.records target_id ≡ record_
    → IsShown p (select_found p row record_ target_id show_detail r)
unfolding select_found
select_found-IsShown p r target_id (some w) (some found) show_detail h listed in_catalog =
    elim (Bool-cases w.hidden) [
      | inl gone ↦ rw gone h
      | inr seen ↦
          let moved =
            moved-IsShown p r target_id w h found (not r.narrow || show_detail) listed in_catalog
              seen in
          elim (Bool-cases (r.narrow && show_detail)) [
            | inl mobile ↦ rw (seen, mobile) moved
            | inr wide ↦ rw (seen, wide) moved
          ]
    ]
select_found-IsShown p r target_id none _ show_detail h listed in_catalog = h
select_found-IsShown p r target_id (some w) none show_detail h listed in_catalog = h

pub select_record-IsShown :
    (p : Setup) (target : Option String) (show_detail : Bool) (r : Reader)
    → IsShown p r
    → IsShown p (select_record p target show_detail r)
unfolding select_record
select_record-IsShown p none show_detail r h = h
select_record-IsShown p (some target_id) show_detail r h =
    select_found-IsShown p r target_id (row_by_id r.rows target_id)
      (record_by_id p.records target_id) show_detail h refl refl

settle-IsShown : (p : Setup) (s : State) (r : Reader) → IsShown p (settle p s r)
unfolding settle
settle-IsShown p s r = apply_filters-IsShown p (apply_controls p (record r { state = s }))

-- Whatever the address asks for, it is shown.
pub read_url-IsShown :
    (p : Setup) (preserve : String) (r : Reader) → IsShown p (read_url p preserve r)
unfolding read_url
read_url-IsShown p preserve r =
    let asked = requested p r.current.params preserve in
    let settled = settle p asked r in
    let shown = settle-IsShown p asked r in
    elim (Bool-cases (has_redundant_scope r.current.params || is_dropped asked settled.state)) [
      | inl rewrite ↦ rw rewrite (write_url-IsShown p replace false settled shown)
      | inr stay ↦ rw stay shown
    ]
