-- ===== src/Site/Rail/Marks.antt =====
-- `setActive` over a run of the rail.
use inc_ql.Base.{
  String, List, [], ◌∷◌, ◌≡◌, refl, Bool-cases, Option-cases, inl, inr, has, every, true, Bool,
  arith, if◌then◌else◌, false,
}
use inc_ql.Site.Rail.{
  Section, Rail, RailEvent, moved, followed, frame, mark_section, current_section,
  update_from_scroll, follow_link, rail_step, rail_run, current_section-IsCurrent, IsMarkedBy,
  mark_rail-IsMarkedBy, current_section-every,
}

-- The section stands on the page.
abbrev pub is_element : List String → Section → Bool
is_element elements s = has elements s.id

-- The marks of the rail are those of an element of the page.
abbrev pub IsMarkedOnce : Rail → Type 0
IsMarkedOnce r =
    (section_id : String) × (has r.elements section_id ≡ true) × IsMarkedBy section_id r.links

-- The sections that an event moves stand on the page.
abbrev pub is_placed : List String → RailEvent → Bool
is_placed elements (moved sections line) = every (is_element elements) sections
is_placed elements (followed section_id) = true
is_placed elements frame = true

-- What is kept: the marks, the elements, and that the sections are elements.
record IsKept (elements : List String) (r : Rail) : Type 0 where
  marks : IsMarkedOnce r
  same : r.elements ≡ elements
  placed : every (is_element r.elements) r.sections ≡ true

update_from_scroll-IsKept :
    (elements : List String) (r : Rail) → IsKept elements r → IsKept elements (update_from_scroll r)
unfolding update_from_scroll
update_from_scroll-IsKept elements r h = record {
  marks = elim (Option-cases (current_section r.reading_line r.sections)) [
    | inl e ↦ rw (e, mark_section) h.marks
    | inr (s, e) ↦
        rw (e, mark_section)
          (
            s.id,
            current_section-every (is_element r.elements) r.reading_line r.sections s h.placed e,
            mark_rail-IsMarkedBy s.id r.links,
          )
  ];
  same = h.same;
  placed = h.placed;
}

follow_link-IsKept :
    (elements : List String) (section_id : String) (r : Rail)
    → IsKept elements r
    → IsKept elements (follow_link section_id r)
unfolding follow_link
follow_link-IsKept elements section_id r h = elim (Bool-cases (has r.elements section_id)) [
  | inl e ↦ rw e (record {
    marks = (section_id, e, mark_rail-IsMarkedBy section_id r.links);
    same = h.same;
    placed = h.placed;
  })
  | inr e ↦ rw e h
]

either-IsKept :
    (elements : List String) (b : Bool) (x y : Rail)
    → IsKept elements x
    → IsKept elements y
    → IsKept elements (if b then x else y)
either-IsKept elements true x y h k = h
either-IsKept elements false x y h k = k

rail_step-IsKept :
    (elements : List String) (e : RailEvent) (r : Rail)
    → is_placed elements e ≡ true
    → IsKept elements r
    → IsKept elements (rail_step e r)
unfolding rail_step
rail_step-IsKept elements (moved sections line) r p h = record {
  marks = h.marks;
  same = h.same;
  placed = rw h.same p;
}
rail_step-IsKept elements (followed section_id) r p h = follow_link-IsKept elements section_id r h
rail_step-IsKept elements frame r p h =
    either-IsKept elements r.is_scheduled (update_from_scroll r) r
      (update_from_scroll-IsKept elements r h) h

rail_run-IsKept :
    (elements : List String) (es : List RailEvent) (r : Rail)
    → every (is_placed elements) es ≡ true
    → IsKept elements r
    → IsKept elements (rail_run es r)
unfolding rail_run
rail_run-IsKept elements [] r p h = h
rail_run-IsKept elements (e ∷ es) r p h =
    rail_run-IsKept elements es (rail_step e r) (ground arith)
      (rail_step-IsKept elements e r (ground arith) h)

first-IsKept :
    (r : Rail) (s : Section) (ss : List Section)
    → every (is_element r.elements) (s ∷ ss) ≡ true
    → IsKept r.elements (update_from_scroll (record r { sections = s ∷ ss }))
unfolding update_from_scroll
first-IsKept r s ss h =
    let (x, e, c) = current_section-IsCurrent r.reading_line s ss in
    let listed : is_element r.elements x ≡ true =
      current_section-every (is_element r.elements) r.reading_line (s ∷ ss) x h e in
    record {
      marks = rw (e, mark_section) (x.id, listed, mark_rail-IsMarkedBy x.id r.links);
      same = refl;
      placed = h;
    }

-- On a page with a section, whose sections are elements of the page: after the first update and
-- whatever scrolling, links followed and frames come, in any order, the page has an element such that
-- the links that are marked, and announced as the place of the reader, are exactly those to it.
pub update-rail_run-IsMarkedOnce :
    (r : Rail) (s : Section) (ss : List Section) (es : List RailEvent)
    → every (is_element r.elements) (s ∷ ss) ≡ true
    → every (is_placed r.elements) es ≡ true
    → IsMarkedOnce (rail_run es (update_from_scroll (record r { sections = s ∷ ss })))
update-rail_run-IsMarkedOnce r s ss es h placed =
    (rail_run-IsKept r.elements es (update_from_scroll (record r { sections = s ∷ ss })) placed
      (first-IsKept r s ss h)).marks
