-- ===== src/Reader/Synced.antt =====
-- The address of the page and the state of the RFC reader.
use inc_ql.Base.{
  String, List, Option, none, some, Bool, true, false, not, ◌&&◌, ◌||◌, if◌then◌else◌, Bool-cases,
  inl, inr, has, trim, trim_idem, ◌≡◌, refl, sym, ◌∙◌, arith,
}
use inc_ql.Params.{Params}
use inc_ql.Catalog.{RfcRecord, State, ids}
use inc_ql.Address.{read_params, write_params, IsCanonical}
use inc_ql.Address.RoundTrip.{restored, read_params-write_params}
use inc_ql.Reader.Session.{
  Setup, Reader, Row, HistoryMode, push, replace, known_of, default_state, write_url,
  resolve_selection, apply_filters, sync_list_selection, record_by_id, row_by_id, select_found,
  select_record, requested, settle, has_redundant_scope, is_dropped, read_url, visible_records,
}
use inc_ql.Reader.Filters.{IsKept, reselect, settle-IsKept, requested-IsCanonical, record_by_id-has}

-- Two states with the same filters and the same explicit selection, but for the white space around
-- the query.
pub record Agrees (a s : State) : Type 0 where
  pub same_query : trim a.query ≡ trim s.query
  pub same_scope : a.scope ≡ s.scope
  pub same_status : a.status ≡ s.status
  pub same_sort : a.sort ≡ s.sort
  pub same_tags : a.tags ≡ s.tags
  pub same_explicit : a.selected_explicitly ≡ s.selected_explicitly
  pub same_selection : s.selected_explicitly ≡ true → a.selected_id ≡ s.selected_id

-- The state that a reload of the page at this address starts from.
abbrev pub reloaded : Setup → Params → State
reloaded p params = read_params params (default_state p.records) (known_of p.records)

-- Unless the query waits to be written, a reload restores the filters and the explicit selection.
abbrev pub IsSynced : Setup → Reader → Type 0
IsSynced p r = r.url_timer ≡ false → Agrees (reloaded p r.current.params) r.state

branch-Agrees :
    (explicit : Bool) (s next : State)
    → s.selected_explicitly ≡ explicit
    → next.selected_explicitly ≡ false
    → Agrees next (record s { selected_id = next.selected_id; selected_explicitly = false })
    → Agrees
        (if explicit
          then record next { selected_id = s.selected_id; selected_explicitly = true }
          else next)
        s
branch-Agrees true s next e implicit h = record {
  same_query = h.same_query;
  same_scope = h.same_scope;
  same_status = h.same_status;
  same_sort = h.same_sort;
  same_tags = h.same_tags;
  same_explicit = sym e;
  same_selection = λ _. refl;
}
branch-Agrees false s next e implicit h = record {
  same_query = h.same_query;
  same_scope = h.same_scope;
  same_status = h.same_status;
  same_sort = h.same_sort;
  same_tags = h.same_tags;
  same_explicit = implicit ∙ sym e;
  same_selection = λ f. cc;
}

restored-Agrees :
    (s defaults : State) → defaults.selected_explicitly ≡ false → Agrees (restored s defaults) s
unfolding restored
restored-Agrees s defaults implicit =
    branch-Agrees s.selected_explicitly s _ refl implicit (record {
      same_query = trim_idem s.query;
      same_scope = refl;
      same_status = refl;
      same_sort = refl;
      same_tags = refl;
      same_explicit = implicit;
      same_selection = λ f. cc;
    })

module _ (p : Setup) (no_blank : has (ids p.records) "" ≡ false) where
  written-Agrees :
      (params : Params) (s : State)
      → IsCanonical (known_of p.records) s
      → Agrees (reloaded p (write_params params s)) s
  unfolding known_of default_state
  written-Agrees params s c =
      rw
        (read_params-write_params params s (default_state p.records) (known_of p.records) c
          no_blank)
        (restored-Agrees s (default_state p.records) refl)

  pub write_url-IsSynced :
      (mode : HistoryMode) (mobile : Bool) (r : Reader)
      → IsKept p r
      → IsSynced p (write_url mode mobile r)
  unfolding write_url
  write_url-IsSynced push mobile r c _ = written-Agrees r.current.params r.state c
  write_url-IsSynced replace mobile r c _ = written-Agrees r.current.params r.state c

  select_found-IsSynced :
      (target_id : String) (row : Option Row) (record_ : Option RfcRecord) (show_detail : Bool)
      (r : Reader)
      → IsKept p r
      → IsSynced p r
      → record_by_id p.records target_id ≡ record_
      → IsSynced p (select_found p row record_ target_id show_detail r)
  unfolding select_found known_of
  select_found-IsSynced target_id (some w) (some found) show_detail r c y in_catalog =
      let moved =
        reselect (known_of p.records) r.state target_id (not r.narrow || show_detail) c
          (λ e. record_by_id-has p p.records target_id found in_catalog) in
      elim (Bool-cases w.hidden) [
        | inl gone ↦ rw gone y
        | inr seen ↦ elim (Bool-cases (r.narrow && show_detail)) [
          | inl mobile ↦ rw (seen, mobile) (λ _. written-Agrees r.current.params _ moved)
          | inr wide ↦ rw (seen, wide) (λ _. written-Agrees r.current.params _ moved)
        ]
      ]
  select_found-IsSynced target_id none _ show_detail r c y in_catalog = y
  select_found-IsSynced target_id (some w) none show_detail r c y in_catalog = y

  pub select_record-IsSynced :
      (target : Option String) (show_detail : Bool) (r : Reader)
      → IsKept p r
      → IsSynced p r
      → IsSynced p (select_record p target show_detail r)
  unfolding select_record
  select_record-IsSynced none show_detail r c y = y
  select_record-IsSynced (some target_id) show_detail r c y =
      select_found-IsSynced target_id (row_by_id r.rows target_id)
        (record_by_id p.records target_id) show_detail r c y refl

-- The selection that an address asks for, kept or given up by the filters.
kept-Agrees :
    (visible : List RfcRecord) (asked a : State)
    → Agrees a asked
    → is_dropped asked (resolve_selection visible asked) ≡ false
    → Agrees a (resolve_selection visible asked)
unfolding is_dropped resolve_selection
kept-Agrees visible asked a h kept = elim (Bool-cases (has (ids visible) asked.selected_id)) [
  | inl stays ↦ rw stays h
  | inr gone ↦
      let implicit : asked.selected_explicitly ≡ false = ground arith in
      rw gone (record {
        same_query = h.same_query;
        same_scope = h.same_scope;
        same_status = h.same_status;
        same_sort = h.same_sort;
        same_tags = h.same_tags;
        same_explicit = h.same_explicit ∙ implicit;
        same_selection = λ f. cc;
      })
]

Agrees-refl : (s : State) → Agrees s s
Agrees-refl s = record {
  same_query = refl;
  same_scope = refl;
  same_status = refl;
  same_sort = refl;
  same_tags = refl;
  same_explicit = refl;
  same_selection = λ f. refl;
}

requested-Agrees :
    (p : Setup) (params : Params) (preserve : String)
    → Agrees (reloaded p params) (requested p params preserve)
unfolding requested
requested-Agrees p params preserve =
    let s = reloaded p params in
    elim (Bool-cases (not s.selected_explicitly && has (ids p.records) preserve)) [
      | inr plain ↦ rw plain (Agrees-refl s)
      | inl kept ↦ rw kept (record {
        same_query = refl;
        same_scope = refl;
        same_status = refl;
        same_sort = refl;
        same_tags = refl;
        same_explicit = refl;
        same_selection = λ f. absurd (ground arith);
      })
    ]

module _ (p : Setup) (no_blank : has (ids p.records) "" ≡ false) where
  settle-IsSynced :
      (preserve : String) (r : Reader)
      → is_dropped
          (requested p r.current.params preserve)
          (settle p (requested p r.current.params preserve) r).state
        ≡ false
      → IsSynced p (settle p (requested p r.current.params preserve) r)
  unfolding settle apply_filters sync_list_selection
  settle-IsSynced preserve r kept _ =
      let asked = requested p r.current.params preserve in
      kept-Agrees (visible_records p asked) asked (reloaded p r.current.params)
        (requested-Agrees p r.current.params preserve) kept

  -- Reading the address, and writing it again where it asks for more than the reader keeps, leaves
  -- the two in agreement.
  pub read_url-IsSynced : (preserve : String) (r : Reader) → IsSynced p (read_url p preserve r)
  unfolding read_url
  read_url-IsSynced preserve r =
      let asked = requested p r.current.params preserve in
      let settled = settle p asked r in
      let kept = settle-IsKept p asked r (requested-IsCanonical p r.current.params preserve) in
      elim (Bool-cases (has_redundant_scope r.current.params || is_dropped asked settled.state)) [
        | inl rewrite ↦ rw rewrite (write_url-IsSynced p no_blank replace false settled kept)
        | inr stay ↦ rw stay (settle-IsSynced preserve r (ground arith))
      ]
