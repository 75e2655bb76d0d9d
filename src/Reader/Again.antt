-- ===== src/Reader/Again.antt =====
-- `applyFilters` runs after every change; what a second run of it does.
use inc_ql.Base.{
  String, length, is_empty, List, [], ◌∷◌, false, has, ◌≡◌, refl, eq_refl, Bool-cases, inl, inr,
}
use inc_ql.Catalog.{sort_records, RfcRecord, State, ids, first_id, resolved_record_id}
use inc_ql.Reader.Session.{
  Setup, Reader, apply_filters, resolve_selection, visible_records, sync_list_selection, place_rows,
  count_text, is_plain, record_by_id,
}
use inc_ql.Reader.Detail.{render_detail}
use inc_ql.Reader.Shown.{visible-resolve, sort-resolve}

first_id-visible :
    (visible : List RfcRecord) (s : State)
    → resolve_selection visible
        (record s { selected_id = first_id visible; selected_explicitly = false })
      ≡ (record s { selected_id = first_id visible; selected_explicitly = false })
unfolding resolve_selection resolved_record_id
first_id-visible [] s = refl
first_id-visible (r ∷ rs) s = rw (eq_refl r.id) refl

-- A selection that was resolved stays.
resolve_selection_idem :
    (visible : List RfcRecord) (s : State)
    → resolve_selection visible (resolve_selection visible s) ≡ resolve_selection visible s
unfolding resolve_selection resolved_record_id
resolve_selection_idem visible s = elim (Bool-cases (has (ids visible) s.selected_id)) [
  | inl h ↦ rw h (rw h refl)
  | inr h ↦ rw h (first_id-visible visible s)
]

-- What `applyFilters` makes of a reader, for the visible records, the order and the resolved state.
unfoldable shown_with : Setup → List RfcRecord → String → State → Reader → Reader
shown_with p visible mode s r =
    let synced = sync_list_selection (record r {
      state = s;
      visible = visible;
      rows = place_rows (sort_records p.collator p.records mode) (ids visible) s.selected_id;
    }) in
    record synced {
      result_count = count_text (length visible);
      reset_hidden = is_plain s;
      list_hidden = is_empty visible;
      shown = record_by_id p.records s.selected_id;
      detail_view =
          render_detail p.records s.tags (length visible) (record_by_id p.records s.selected_id);
    }

shown_with_again :
    (p : Setup) (visible : List RfcRecord) (s : State) (r : Reader)
    → visible ≡ visible_records p s
    → (let kept = resolve_selection visible s in
        shown_with p
          (visible_records p kept)
          kept.sort
          (resolve_selection (visible_records p kept) kept)
          r
        ≡ shown_with p visible s.sort kept r)
shown_with_again p visible s r e =
    rw (visible-resolve p visible s, ← e, resolve_selection_idem visible s, sort-resolve visible s)
      refl

-- `applyFilters` changes nothing when it runs a second time on the state that it left.
pub apply_filters_idem :
    (p : Setup) (r : Reader) → apply_filters p (apply_filters p r) ≡ apply_filters p r
unfolding apply_filters shown_with sync_list_selection
apply_filters_idem p r = shown_with_again p (visible_records p r.state) r.state r refl
