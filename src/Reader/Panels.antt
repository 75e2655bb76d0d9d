-- ===== src/Reader/Panels.antt =====
-- The tag panel and the status menu of the RFC reader: `setTagPanelOpen`, and the handlers that open
-- and close the two.
use inc_ql.Base.{Bool, true, false, not, ◌&&◌, if◌then◌else◌, ◌≡◌, arith, List, [], ◌∷◌}

-- `toggle_queued`: the `toggle` event of the `details` element, which the browser sends after its
-- `open` changed.
pub record Panels : Type 0 where
  pub has_tags : Bool
  pub tags_open : Bool
  pub tags_expanded : Bool
  pub status_open : Bool
  pub status_expanded : Bool
  pub toggle_queued : Bool

-- `statusFilter.open = open`
unfoldable pub set_status_open : Bool → Panels → Panels
set_status_open true p =
    if p.status_open then p else record p { status_open = true; toggle_queued = true }
set_status_open false p =
    if p.status_open then record p { status_open = false; toggle_queued = true } else p

unfoldable pub set_tag_panel_open : Bool → Panels → Panels
unfolding set_status_open
set_tag_panel_open open_ p =
    let q = record p { tags_open = open_; tags_expanded = open_ } in
    let shown = if open_ then set_status_open false q else q in if p.has_tags then shown else p

-- The handler of the `toggle` event.
unfoldable pub status_toggled : Panels → Panels
unfolding set_tag_panel_open
status_toggled p =
    let q = record p { status_expanded = p.status_open; toggle_queued = false } in
    if p.status_open then set_tag_panel_open false q else q

-- `focus_search suppressed`: the search field gets the focus. `press inside_search inside_status`: a
-- pointer goes down. `escape`: the key, with the focus in the search form or in the menu.
pub data Gesture : Type 0 where
  focus_search : Bool → Gesture
  press_tag_button : Gesture
  show_overflow : Gesture
  arrow_down : Bool → Gesture
  escape : Bool → Bool → Gesture
  press : Bool → Bool → Gesture
  press_status : Gesture
  toggle_event : Gesture
  navigated : Gesture

unfoldable pub escape_key : Bool → Bool → Panels → Panels
unfolding set_tag_panel_open set_status_open
escape_key in_search in_status p =
    if p.tags_open && in_search
    then set_tag_panel_open false p
    else if p.status_open && in_status
    then set_status_open false p
    else p

unfoldable pub pointer_down : Bool → Bool → Panels → Panels
unfolding set_tag_panel_open set_status_open
pointer_down in_search in_status p =
    let q = if in_search then p else set_tag_panel_open false p in
    if in_status then q else set_status_open false q

-- A press on the tag button toggles the panel, and opening it moves the focus to the search field.
unfoldable pub tag_button : Panels → Panels
unfolding set_tag_panel_open
tag_button p =
    let q = set_tag_panel_open (not p.tags_open) p in
    if q.tags_open then set_tag_panel_open true q else q

unfoldable pub gesture : Gesture → Panels → Panels
unfolding status_toggled escape_key pointer_down tag_button
gesture (focus_search suppressed) p = if suppressed then p else set_tag_panel_open true p
gesture press_tag_button p = tag_button p
gesture show_overflow p = set_tag_panel_open true p
gesture (arrow_down has_records) p = if has_records then set_tag_panel_open false p else p
gesture (escape in_search in_status) p = escape_key in_search in_status p
gesture (press in_search in_status) p = pointer_down in_search in_status p
gesture press_status p = set_status_open (not p.status_open) p
gesture toggle_event p = if p.toggle_queued then status_toggled p else p
gesture navigated p = set_status_open false (set_tag_panel_open false p)

unfoldable pub gestures : List Gesture → Panels → Panels
gestures [] p = p
gestures (g ∷ gs) p = gestures gs (gesture g p)

-- Both are open only while the event that closes the tag panel is on its way; the tag panel is open
-- only if there are tags; and each element is announced as it is, once no event is on its way.
pub record IsExclusive (p : Panels) : Type 0 where
  pub one_open : p.tags_open ≡ true → p.status_open ≡ true → p.toggle_queued ≡ true
  pub tags_exist : p.tags_open ≡ true → p.has_tags ≡ true
  pub tags_announced : p.tags_expanded ≡ p.tags_open
  pub status_announced : p.toggle_queued ≡ false → p.status_expanded ≡ p.status_open

pub gesture-IsExclusive : (g : Gesture) (p : Panels) → IsExclusive p → IsExclusive (gesture g p)
unfolding gesture
gesture-IsExclusive (focus_search suppressed) p h = ground arith
gesture-IsExclusive _ p h = ground arith

-- Whatever the reader does, the tag panel and the status menu are both open only while the queued
-- toggle event is still to be handled, and each is announced by `aria-expanded` as it stands (the
-- status menu once no such event is queued).
pub gestures-IsExclusive :
    (gs : List Gesture) (p : Panels) → IsExclusive p → IsExclusive (gestures gs p)
unfolding gestures
gestures-IsExclusive [] p h = h
gestures-IsExclusive (g ∷ gs) p h =
    gestures-IsExclusive gs (gesture g p) (gesture-IsExclusive g p h)

-- Handling the queued event leaves at most one of the two open.
toggle_event-closes :
    (p : Panels)
    → IsExclusive p
    → (let q = gesture toggle_event p in q.tags_open && q.status_open) ≡ false
unfolding gesture
toggle_event-closes p h = ground arith
