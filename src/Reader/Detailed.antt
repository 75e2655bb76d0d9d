-- ===== src/Reader/Detailed.antt =====
-- The detail view of the RFC reader, text by text, through every sequence of events.
use inc_ql.Base.{
  String, List, [], ◌∷◌, none, some, Bool, true, false, length, has, is_blank, ◌==◌, find_last,
  template, decimal, Bool-cases, Option-cases, inl, inr, ◌⊎◌, ◌≡◌, refl, ◌∙◌,
}
use inc_ql.Params.{Params}
use inc_ql.Catalog.{Tag, SourceLink, RfcRecord}
use inc_ql.Reader.Panels.{Panels}
use inc_ql.Reader.Detail.{
  TagButton, Related, Detail, tag_buttons, source_links, related_records, render_detail,
}
use inc_ql.Reader.Session.{Setup, Reader}
use inc_ql.Reader.Events.{Event, run, initialize}
use inc_ql.Reader.Rendered.{initialize-run-IsRendered}

-- One button for each tag, in their order, pressed if the filters have the tag; its text for the
-- screen reader says what it would do.
pub data IsButtons (selected : List String) : List Tag → List TagButton → Type 0 where
  no_tag : IsButtons selected [] []
  on_tag :
      (t : Tag) (ts : List Tag) (b : TagButton) (bs : List TagButton)
      → b.key ≡ t.key
      → b.label ≡ t.label
      → has selected t.key ≡ true
      → b.pressed ≡ true
      → b.aria ≡ template ("Remove" ∷ " " ∷ t.label ∷ " tag filter" ∷ [])
      → IsButtons selected ts bs
      → IsButtons selected (t ∷ ts) (b ∷ bs)
  off_tag :
      (t : Tag) (ts : List Tag) (b : TagButton) (bs : List TagButton)
      → b.key ≡ t.key
      → b.label ≡ t.label
      → has selected t.key ≡ false
      → b.pressed ≡ false
      → b.aria ≡ template ("Add" ∷ " " ∷ t.label ∷ " tag filter" ∷ [])
      → IsButtons selected ts bs
      → IsButtons selected (t ∷ ts) (b ∷ bs)

-- The links that have an address and a label, in their order.
pub data IsLinks : List SourceLink → List SourceLink → Type 0 where
  no_link : IsLinks [] []
  usable :
      (l : SourceLink) (ls shown : List SourceLink)
      → is_blank l.url ≡ false
      → is_blank l.label ≡ false
      → IsLinks ls shown
      → IsLinks (l ∷ ls) (l ∷ shown)
  unusable :
      (l : SourceLink) (ls shown : List SourceLink)
      → (is_blank l.url ≡ true) ⊎ (is_blank l.label ≡ true)
      → IsLinks ls shown
      → IsLinks (l ∷ ls) shown

-- A link to the last record of each id that has one, in the order of the ids.
pub data IsRelated (records : List RfcRecord) : List String → List Related → Type 0 where
  no_id : IsRelated records [] []
  known :
      (id : String) (ids : List String) (found : RfcRecord) (link : Related) (shown : List Related)
      → find_last (λ (o : RfcRecord). o.id == id) records ≡ some found
      → link.text ≡ template ("RFC " ∷ found.id ∷ [])
      → link.href ≡ found.href
      → IsRelated records ids shown
      → IsRelated records (id ∷ ids) (link ∷ shown)
  unknown :
      (id : String) (ids : List String) (shown : List Related)
      → find_last (λ (o : RfcRecord). o.id == id) records ≡ none
      → IsRelated records ids shown
      → IsRelated records (id ∷ ids) shown

-- The view of a record among the results.
pub record IsView (records : List RfcRecord) (selected : List String) (results : List RfcRecord)
    (r : RfcRecord) (d : Detail) : Type 0 where
  pub back : d.back ≡ template ("Back to " ∷ decimal (length results) ∷ " results" ∷ [])
  pub eyebrow : d.eyebrow ≡ template ("RFC " ∷ r.id ∷ " · " ∷ r.lifecycle ∷ [])
  pub heading : d.heading ≡ r.title
  pub status : d.status ≡ r.status
  pub created : d.created ≡ r.created
  pub open_href : d.open_href ≡ r.href
  pub summary : d.summary ≡ r.summary
  pub motivation : d.motivation ≡ r.motivation
  pub tags : IsButtons selected r.tags d.tags
  pub issue : IsLinks r.issue_links d.issue
  pub related : IsRelated records r.related_ids d.related

-- The view is hidden if no record is shown; else it is the view of that record.
pub data IsDetailed (p : Setup) (r : Reader) : Type 0 where
  hidden : r.shown ≡ none → r.detail_view ≡ none → IsDetailed p r
  detailed :
      (shown : RfcRecord) (d : Detail)
      → r.shown ≡ some shown
      → r.detail_view ≡ some d
      → IsView p.records r.state.tags r.visible shown d
      → IsDetailed p r

tag_buttons-IsButtons :
    (selected : List String) (ts : List Tag) → IsButtons selected ts (tag_buttons selected ts)
unfolding tag_buttons
tag_buttons-IsButtons selected [] = no_tag
tag_buttons-IsButtons selected (t ∷ ts) = elim (Bool-cases (has selected t.key)) [
  | inl e ↦ rw e (on_tag t ts _ _ refl refl e refl refl (tag_buttons-IsButtons selected ts))
  | inr e ↦ rw e (off_tag t ts _ _ refl refl e refl refl (tag_buttons-IsButtons selected ts))
]

source_links-IsLinks : (ls : List SourceLink) → IsLinks ls (source_links ls)
unfolding source_links
source_links-IsLinks [] = no_link
source_links-IsLinks (l ∷ ls) = elim (Bool-cases (is_blank l.url)) [
  | inl e ↦ rw e (unusable l ls _ (inl e) (source_links-IsLinks ls))
  | inr e ↦ elim (Bool-cases (is_blank l.label)) [
    | inl k ↦ rw (e, k) (unusable l ls _ (inr k) (source_links-IsLinks ls))
    | inr k ↦ rw (e, k) (usable l ls _ e k (source_links-IsLinks ls))
  ]
]

related_records-IsRelated :
    (records : List RfcRecord) (ids : List String)
    → IsRelated records ids (related_records records ids)
unfolding related_records
related_records-IsRelated records [] = no_id
related_records-IsRelated records (id ∷ ids) =
    elim (Option-cases (find_last (λ (o : RfcRecord). o.id == id) records)) [
      | inl e ↦ rw (e, related_records) (unknown id ids _ e (related_records-IsRelated records ids))
      | inr (found, e) ↦
          rw (e, related_records)
            (known id ids found _ _ e refl refl (related_records-IsRelated records ids))
    ]

render_detail-IsDetailed :
    (p : Setup) (r : Reader)
    → r.detail_view ≡ render_detail p.records r.state.tags (length r.visible) r.shown
    → IsDetailed p r
unfolding render_detail
render_detail-IsDetailed p r h = elim (Option-cases r.shown) [
  | inl e ↦ hidden e (h ∙ rw e refl)
  | inr (shown, e) ↦ detailed shown _ e (h ∙ rw e refl) (record {
    back = refl;
    eyebrow = refl;
    heading = refl;
    status = refl;
    created = refl;
    open_href = refl;
    summary = refl;
    motivation = refl;
    tags = tag_buttons-IsButtons r.state.tags shown.tags;
    issue = source_links-IsLinks shown.issue_links;
    related = related_records-IsRelated p.records shown.related_ids;
  })
]

-- From whatever address the reader starts, and whatever comes after, in any order: if no record is
-- shown, the detail view is hidden; else it is the view of that record. The button that goes back tells
-- how many records are visible; each tag has a button, which is pressed if and only if the filters have
-- the tag, and whose text says Remove or Add accordingly; the source's links are those that have an
-- address and a label; the related records are, for each id that the catalog has, its last record of
-- that id; and each other text is the record's.
pub initialize-run-IsDetailed :
    (p : Setup) (params : Params) (narrow : Bool) (panels : Panels) (es : List Event)
    → IsDetailed p (run p es (initialize p params narrow panels))
initialize-run-IsDetailed p params narrow panels es =
    render_detail-IsDetailed p (run p es (initialize p params narrow panels))
      (initialize-run-IsRendered p params narrow panels es).detail_rendered
