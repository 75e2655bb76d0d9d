-- ===== src/Site/Rail.antt =====
-- `initializeArchitectureNav`: the rail of links beside the sections of a page, and which of them is
-- marked. The tops and bottoms of the sections, and the reading line, are whole numbers in a unit of
-- the browser's choice.
pub mod Marks
use mathlib.Core.List.{Mem, mem-cons_self, mem-cons_of_mem}
use mathlib.Core.Path.{subst}
use inc_ql.Base.{
  ◌+◌, ◌-◌, ◌*◌, min, ltb, Bool-cases, every, ℕ, String, List, [], ◌∷◌, Option, none, some, Bool,
  true, false, ◌&&◌, ◌==◌, if◌then◌else◌, leb, any, find, head?, head-sort-least, head-sort-Mem,
  eq-nil_of_sort, sort, ℤ, ◌-ℤ◌, leb_ℤ, ltb_ℤ, abs, ◌≡◌, refl, inl, inr, arith, Option-cases, has,
  ap, sym, ◌∙◌, not, head-sort-every,
}

pub record RailLink : Type 0 where
  pub architecture_link : String
  pub offset_left : ℕ
  pub offset_width : ℕ
  pub is_marked : Bool
  pub aria_location : Bool

-- A section, with its bounding rectangle as it is when it is read.
pub record Section : Type 0 where
  pub id : String
  pub top : ℤ
  pub bottom : ℤ

-- The marks that `setActive(sectionId)` sets.
unfoldable pub mark_rail : String → List RailLink → List RailLink
mark_rail section_id [] = []
mark_rail section_id (l ∷ ls) =
    let is_active = l.architecture_link == section_id in
    record l { is_marked = is_active; aria_location = is_active } ∷ mark_rail section_id ls

-- `bounds.top <= readingLine && bounds.bottom > readingLine`
unfoldable pub is_under : ℤ → Section → Bool
is_under line s = leb_ℤ s.top line && ltb_ℤ line s.bottom

-- `Math.abs(top - readingLine)`
unfoldable pub distance : ℤ → Section → ℕ
distance line s = abs (s.top -ℤ line)

-- `left.distance - right.distance <= 0`
unfoldable pub nearer : ℤ → Section → Section → Bool
unfolding distance
nearer line left right = leb (distance line left) (distance line right)

-- The section that `updateActiveFromScroll` marks.
unfoldable pub current_section : ℤ → List Section → Option Section
unfolding is_under nearer
current_section line sections = elim (find (is_under line) sections) [
  | none ↦ head? (sort (nearer line) sections)
  | some s ↦ some s
]

-- The rail, the ids of the page's elements, the sections as they lie now, the reading line, and whether a frame is asked for.
-- `double_scroll_left` is twice the rail's own scroll offset.
pub record Rail : Type 0 where
  pub links : List RailLink
  pub elements : List String
  pub sections : List Section
  pub reading_line : ℤ
  pub is_scheduled : Bool
  pub scroll_width : ℕ
  pub client_width : ℕ
  pub double_scroll_left : ℕ

-- Twice the offset that centres a link, within the range of the rail: a difference of natural numbers
-- is 0 where the source takes the larger of 0 and a negative number.
unfoldable pub centered_left : RailLink → Rail → ℕ
centered_left l r =
    min (l.offset_left * 2 + l.offset_width - r.client_width)
      ((r.scroll_width - r.client_width) * 2)

unfoldable scroll_link : Option RailLink → Rail → ℕ
unfolding centered_left
scroll_link none r = r.double_scroll_left
scroll_link (some l) r =
    if ltb r.client_width r.scroll_width then centered_left l r else r.double_scroll_left

-- The offset that `setActive(sectionId)` leaves: the rail scrolls if its links do not all fit.
unfoldable pub scroll_rail : String → Rail → ℕ
unfolding scroll_link
scroll_rail section_id r =
    scroll_link (find (λ (l : RailLink). l.architecture_link == section_id) r.links) r

unfoldable scroll_section : Option Section → Rail → ℕ
unfolding scroll_rail
scroll_section none r = r.double_scroll_left
scroll_section (some s) r = scroll_rail s.id r

unfoldable mark_section : Option Section → List RailLink → List RailLink
mark_section none ls = ls
mark_section (some s) ls = mark_rail s.id ls

unfoldable pub update_from_scroll : Rail → Rail
unfolding mark_section current_section scroll_section
update_from_scroll r = record r {
  is_scheduled = false;
  double_scroll_left = scroll_section (current_section r.reading_line r.sections) r;
  links = mark_section (current_section r.reading_line r.sections) r.links;
}

-- `handleClick` of the link to the section: nothing if the page has no such element.
unfoldable pub follow_link : String → Rail → Rail
unfolding mark_rail scroll_rail
follow_link section_id r =
    if has r.elements section_id
    then record r {
      links = mark_rail section_id r.links;
      double_scroll_left = scroll_rail section_id r;
    }
    else r

-- The page scrolls or changes its size, which moves the sections and asks for a frame; a link is
-- followed; the browser runs the frame.
pub data RailEvent : Type 0 where
  moved : List Section → ℤ → RailEvent
  followed : String → RailEvent
  frame : RailEvent

unfoldable pub rail_step : RailEvent → Rail → Rail
unfolding update_from_scroll follow_link
rail_step (moved sections line) r = record r {
  sections = sections;
  reading_line = line;
  is_scheduled = true;
}
rail_step (followed section_id) r = follow_link section_id r
rail_step frame r = if r.is_scheduled then update_from_scroll r else r

unfoldable pub rail_run : List RailEvent → Rail → Rail
rail_run [] r = r
rail_run (e ∷ es) r = rail_run es (rail_step e r)

-- A section that contains the reading line; else, if none does, one whose top is as near to it as that
-- of every other.
pub data IsCurrent (line : ℤ) (sections : List Section) (s : Section) : Type 0 where
  under :
      Mem s sections
      → leb_ℤ s.top line ≡ true
      → ltb_ℤ line s.bottom ≡ true
      → IsCurrent line sections s
  nearest :
      Mem s sections
      → every (λ (o : Section). not (leb_ℤ o.top line && ltb_ℤ line o.bottom)) sections ≡ true
      → every (λ (o : Section). leb (abs (s.top -ℤ line)) (abs (o.top -ℤ line))) sections ≡ true
      → IsCurrent line sections s

-- Exactly the links to the section are marked, and announced as the place of the reader.
abbrev pub IsMarkedBy : String → List RailLink → Type 0
IsMarkedBy section_id [] = Unit
IsMarkedBy section_id (l ∷ ls) =
    (l.is_marked ≡ (l.architecture_link == section_id))
    × (l.aria_location ≡ (l.architecture_link == section_id))
    × IsMarkedBy section_id ls

-- The sections that the links lead to.
abbrev pub targets : List RailLink → List String
targets [] = []
targets (l ∷ ls) = l.architecture_link ∷ targets ls

pub mark_rail-IsMarkedBy :
    (section_id : String) (ls : List RailLink) → IsMarkedBy section_id (mark_rail section_id ls)
unfolding mark_rail
mark_rail-IsMarkedBy section_id [] = tt
mark_rail-IsMarkedBy section_id (l ∷ ls) = (refl, refl, mark_rail-IsMarkedBy section_id ls)

mark_rail-targets :
    (section_id : String) (ls : List RailLink) → targets (mark_rail section_id ls) ≡ targets ls
unfolding mark_rail
mark_rail-targets section_id [] = refl
mark_rail-targets section_id (l ∷ ls) = rw (mark_rail-targets section_id ls) refl

nearer_total : (line : ℤ) (a b : Section) → nearer line a b ≡ false → nearer line b a ≡ true
unfolding nearer
nearer_total line a b h = ground arith

nearer_trans :
    (line : ℤ) (a b c : Section)
    → nearer line a b ≡ true
    → nearer line b c ≡ true
    → nearer line a c ≡ true
unfolding nearer
nearer_trans line a b c h k = ground arith

find-Mem :
    (p : Section → Bool) (l : List Section) (x : Section)
    → find p l ≡ some x
    → Mem x l × (p x ≡ true)
find-Mem p [] x e = cc
find-Mem p (y ∷ l) x e = elim (Bool-cases (p y)) [
  | inl h ↦
      let here : y ≡ x = ground arith in
      subst (λ z. Mem z (y ∷ l) × (p z ≡ true)) here (mem-cons_self, h)
  | inr h ↦ let (m, q) = find-Mem p l x (ground arith) in (mem-cons_of_mem y m, q)
]

find-none :
    (p : Section → Bool) (l : List Section)
    → find p l ≡ none
    → every (λ (o : Section). not (p o)) l ≡ true
find-none p [] e = refl
find-none p (x ∷ l) e = ground (arith, find-none p l)

under_of :
    (line : ℤ) (ss : List Section) (x : Section)
    → Mem x ss × (is_under line x ≡ true)
    → IsCurrent line ss x
unfolding is_under
under_of line ss x (m, h) = under m (ground arith) (ground arith)

sorted_nearest :
    (line : ℤ) (ss : List Section) (x : Section)
    → every (λ (o : Section). not (is_under line o)) ss ≡ true
    → head? (sort (nearer line) ss) ≡ some x
    → IsCurrent line ss x
unfolding is_under nearer distance
sorted_nearest line ss x none_under e =
    nearest (head-sort-Mem (nearer line) ss x e) none_under
      (head-sort-least (nearer line) (nearer_total line) (nearer_trans line) ss x e)

-- There is always a section to mark if there is a section.
pub current_section-IsCurrent :
    (line : ℤ) (s : Section) (ss : List Section)
    → (x : Section) × (current_section line (s ∷ ss) ≡ some x) × IsCurrent line (s ∷ ss) x
unfolding current_section
current_section-IsCurrent line s ss = elim (Option-cases (find (is_under line) (s ∷ ss))) [
  | inr (x, e) ↦ (
    x,
    rw (e, current_section) refl,
    under_of line (s ∷ ss) x (find-Mem (is_under line) (s ∷ ss) x e),
  )
  | inl e ↦ elim (Option-cases (head? (sort (nearer line) (s ∷ ss)))) [
    | inl none_left ↦
        let impossible : s ∷ ss ≡ [] = eq-nil_of_sort (nearer line) (s ∷ ss) none_left in cc
    | inr (x, h) ↦ (
      x,
      rw (e, current_section) h,
      sorted_nearest line (s ∷ ss) x (find-none (is_under line) (s ∷ ss) e) h,
    )
  ]
]

find-every :
    (p q : Section → Bool) (l : List Section) (x : Section)
    → every q l ≡ true
    → find p l ≡ some x
    → q x ≡ true
find-every p q [] x h e = cc
find-every p q (y ∷ l) x h e = elim (Bool-cases (p y)) [
  | inl k ↦
      let (here, first) : (y ≡ x) × (q y ≡ true) = (ground arith, ground arith) in
      ap q (sym here) ∙ first
  | inr k ↦ find-every p q l x (ground arith) (ground arith)
]

-- What holds of every section holds of the one that is marked.
pub current_section-every :
    (q : Section → Bool) (line : ℤ) (ss : List Section) (x : Section)
    → every q ss ≡ true
    → current_section line ss ≡ some x
    → q x ≡ true
unfolding current_section
current_section-every q line ss x h e = elim (Option-cases (find (is_under line) ss)) [
  | inl k ↦ head-sort-every (nearer line) q ss x h (sym (rw (k, current_section) refl) ∙ e)
  | inr (y, k) ↦
      let same : some y ≡ some x = sym (rw (k, current_section) refl) ∙ e in
      find-every (is_under line) q ss x h (k ∙ same)
]

-- When the frame runs that a scroll or a change of size asked for on a page with a section, exactly
-- the links to one section are marked: a section that contains the reading line, or, if none does, a
-- section whose top is as near to the line as that of every other. The links lead where they led.
pub moved-frame-IsCurrent :
    (r : Rail) (line : ℤ) (s : Section) (ss : List Section)
    → (x : Section) × IsCurrent line (s ∷ ss) x
      × IsMarkedBy x.id (rail_step frame (rail_step (moved (s ∷ ss) line) r)).links
      × (targets (rail_step frame (rail_step (moved (s ∷ ss) line) r)).links ≡ targets r.links)
unfolding rail_step update_from_scroll
moved-frame-IsCurrent r line s ss =
    let (x, e, c) = current_section-IsCurrent line s ss in
    (
      x,
      c,
      rw (e, mark_section) (mark_rail-IsMarkedBy x.id r.links),
      rw (e, mark_section) (mark_rail-targets x.id r.links),
    )
