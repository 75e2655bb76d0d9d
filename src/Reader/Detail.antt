-- ===== src/Reader/Detail.antt =====
-- `renderDetail`: what the detail view shows of a record.
use inc_ql.Base.{
  ℕ, String, List, [], ◌∷◌, Option, none, some, Bool, not, ◌&&◌, if◌then◌else◌, find_last, keep,
  has, is_blank, ◌==◌, template, decimal,
}
use inc_ql.Catalog.{Tag, SourceLink, RfcRecord}

-- The button of a tag, with `aria-pressed` and `aria-label`.
pub record TagButton : Type 0 where
  pub key : String
  pub label : String
  pub pressed : Bool
  pub aria : String

pub record Related : Type 0 where
  pub text : String
  pub href : String

-- `back` is the text of the button that goes back; `issue` and `related` are left out when empty.
pub record Detail : Type 0 where
  pub back : String
  pub eyebrow : String
  pub heading : String
  pub status : String
  pub tags : List TagButton
  pub created : String
  pub issue : List SourceLink
  pub open_href : String
  pub summary : String
  pub motivation : String
  pub related : List Related

unfoldable pub tag_buttons : List String → List Tag → List TagButton
tag_buttons selected [] = []
tag_buttons selected (t ∷ ts) =
    let is_active = has selected t.key in
    record {
      key = t.key;
      label = t.label;
      pressed = is_active;
      aria =
          template ((if is_active then "Remove" else "Add") ∷ " " ∷ t.label ∷ " tag filter" ∷ []);
    }
    ∷ tag_buttons selected ts

-- `sourceLinks`: the links that have an address and a label
unfoldable pub source_links : List SourceLink → List SourceLink
source_links links = keep (λ (l : SourceLink). not (is_blank l.url) && not (is_blank l.label)) links

-- `related_ids.map((id) => recordById.get(id)).filter(Boolean)`
unfoldable pub related_records : List RfcRecord → List String → List Related
related_records records [] = []
related_records records (id ∷ ids) =
    let rest = related_records records ids in
    elim (find_last (λ (r : RfcRecord). r.id == id) records) [
      | none ↦ rest
      | some r ↦ record { text = template ("RFC " ∷ r.id ∷ []); href = r.href } ∷ rest
    ]

-- `renderDetail(record)`, for the selected tags and the number of visible records; the view is
-- hidden if there is no record.
unfoldable pub render_detail : List RfcRecord → List String → ℕ → Option RfcRecord → Option Detail
unfolding tag_buttons source_links related_records
render_detail records selected count none = none
render_detail records selected count (some r) = some (record {
  back = template ("Back to " ∷ decimal count ∷ " results" ∷ []);
  eyebrow = template ("RFC " ∷ r.id ∷ " · " ∷ r.lifecycle ∷ []);
  heading = r.title;
  status = r.status;
  tags = tag_buttons selected r.tags;
  created = r.created;
  issue = source_links r.issue_links;
  open_href = r.href;
  summary = r.summary;
  motivation = r.motivation;
  related = related_records records r.related_ids;
})
