-- ===== src/Site/Tabs.antt =====
-- `initializeSurfaceTabs`: a row of tabs, the panels that they control, and the row's scrolling. Lengths
-- are whole, in a unit of the reader's choice; an identity of a tab is its index.
pub mod Active
pub mod Scroll
use inc_ql.Base.{
  ℕ, zero, suc, ◌+◌, ◌-◌, ◌*◌, ◌%◌, ◌<◌, ◌≤◌, min, String, List, [], ◌∷◌, Option, none, some, Bool,
  true, false, not, ◌&&◌, ◌||◌, ◌==◌, if◌then◌else◌, ltb, leb, length, get_elem?, find, every,
  is_empty, Option-cases, ℤ, pos, negsuc, pos_part, sub_ℕ, leb_ℤ, min_ℤ, max_ℤ, ◌≡◌, refl, sym, ap,
  ◌∙◌, arith, inl, inr,
}

pub record Tab : Type 0 where
  pub aria_controls : Option String
  pub aria_selected : Bool
  pub tab_index : ℤ
  pub offset_left : ℕ
  pub offset_width : ℕ

pub record Panel : Type 0 where
  pub id : String
  pub is_hidden : Bool
  pub panel_index : ℤ

pub record TabList : Type 0 where
  pub scroll_width : ℕ
  pub client_width : ℕ
  pub start_padding : ℕ
  pub scroll_left : ℕ

-- A group, with whether it is set up, the tab with the focus, and whether the plan beside the group,
-- if there is one, is flagged as unchanged.
pub record Group : Type 0 where
  pub tabs : List Tab
  pub panels : List Panel
  pub tab_list : Option TabList
  pub focused : Option ℕ
  pub same_plan : Option Bool
  pub is_ready : Bool

-- `aria-selected` and `tabIndex`, for whether the tab is the active one.
unfoldable pub set_active : Bool → Tab → Tab
set_active is_active t = record t {
  aria_selected = is_active;
  tab_index = if is_active then pos 0 else negsuc 0;
}

unfoldable pub clear_tabs : List Tab → List Tab
unfolding set_active
clear_tabs [] = []
clear_tabs (t ∷ ts) = set_active false t ∷ clear_tabs ts

-- `tabs.forEach`, for the active tab's index
unfoldable pub mark_tabs : ℕ → List Tab → List Tab
unfolding set_active clear_tabs
mark_tabs i [] = []
mark_tabs zero (t ∷ ts) = set_active true t ∷ clear_tabs ts
mark_tabs (suc i) (t ∷ ts) = set_active false t ∷ mark_tabs i ts

abbrev pub is_controlled : Option String → String → Bool
is_controlled none id = false
is_controlled (some text) id = id == text

-- `panels.forEach`
unfoldable pub mark_panels : Option String → List Panel → List Panel
mark_panels controls [] = []
mark_panels controls (p ∷ ps) =
    record p { is_hidden = not (is_controlled controls p.id); panel_index = pos 0 }
    ∷ mark_panels controls ps

-- `tabs.slice(0, n)`
abbrev pub take : ℕ → List Tab → List Tab
take zero ts = []
take (suc n) [] = []
take (suc n) (t ∷ ts) = t ∷ take n ts

-- `activeRight - tab.offsetLeft <= availableWidth`
unfoldable pub is_near : TabList → Tab → Tab → Bool
is_near l next t =
    leb_ℤ (sub_ℕ (next.offset_left + next.offset_width) t.offset_left)
      (sub_ℕ l.client_width (l.start_padding * 2))

unfoldable pub left_anchor : TabList → List Tab → ℕ → Tab → Tab
unfolding is_near
left_anchor l tabs i next = elim (find (is_near l next) (take (suc i) tabs)) [
  | none ↦ next
  | some t ↦ t
]

-- `Math.max(0, Math.min(alignedLeft, maximumLeft))`
unfoldable pub scroll_target : TabList → Tab → ℕ
scroll_target l anchor = pos_part (
    max_ℤ (pos 0)
      (min_ℤ (sub_ℕ anchor.offset_left l.start_padding) (sub_ℕ l.scroll_width l.client_width)))

unfoldable pub scroll_to : List Tab → ℕ → Tab → TabList → TabList
unfolding left_anchor scroll_target
scroll_to tabs i next l =
    if ltb l.client_width l.scroll_width
    then record l { scroll_left = scroll_target l (left_anchor l tabs i next) }
    else l

unfoldable pub scroll_list : List Tab → ℕ → Tab → Option TabList → Option TabList
unfolding scroll_to
scroll_list tabs i next none = none
scroll_list tabs i next (some l) = some (scroll_to tabs i next l)

unfoldable pub signal_unchanged : Bool → Option Bool → Option Bool
signal_unchanged user_initiated none = none
signal_unchanged user_initiated (some flagged) = some (user_initiated || flagged)

unfoldable pub activate : ℕ → Option Tab → Bool → Bool → Group → Group
unfolding mark_tabs mark_panels scroll_list signal_unchanged
activate i none move_focus user_initiated g = g
activate i (some next) move_focus user_initiated g = record g {
  tabs = mark_tabs i g.tabs;
  panels = mark_panels next.aria_controls g.panels;
  tab_list = scroll_list g.tabs i next g.tab_list;
  focused = if move_focus then some i else g.focused;
  same_plan = signal_unchanged user_initiated g.same_plan;
}

-- `activateTab(tabs[i], moveFocus, userInitiated)`
unfoldable pub activate_tab : ℕ → Bool → Bool → Group → Group
unfolding activate
activate_tab i move_focus user_initiated g =
    activate i (get_elem? g.tabs i) move_focus user_initiated g

-- The index that a key leads to from the tab at `index`, of `count` tabs.
unfoldable pub key_index : String → ℕ → ℕ → Option ℕ
key_index key index count =
    if key == "ArrowRight"
    then some ((index + 1) % count)
    else if key == "ArrowLeft"
    then some ((index + count - 1) % count)
    else if key == "Home"
    then some 0
    else if key == "End"
    then some (count - 1)
    else none

pub data TabEvent : Type 0 where
  tab_clicked : ℕ → TabEvent
  tab_key : ℕ → String → TabEvent

-- The listeners of the tab at the index.
unfoldable pub on_tab : TabEvent → Group → Group
unfolding activate_tab key_index
on_tab (tab_clicked i) g = activate_tab i false true g
on_tab (tab_key i key) g = elim (key_index key i (length g.tabs)) [
  | none ↦ g
  | some next ↦ activate_tab next true true g
]

unfoldable pub run_tabs : List TabEvent → Group → Group
run_tabs [] g = g
run_tabs (e ∷ es) g = run_tabs es (on_tab e g)

-- The index of the first selected tab, and of the first tab if none is.
unfoldable pub first_from : ℕ → List Tab → Option ℕ
first_from i [] = none
first_from i (t ∷ ts) = let rest = first_from (suc i) ts in if t.aria_selected then some i else rest

unfoldable pub selected_tab : List Tab → ℕ
unfolding first_from
selected_tab tabs = elim (first_from 0 tabs) [ none ↦ 0 | some i ↦ i ]

unfoldable pub initialize_group : Group → Group
unfolding activate_tab selected_tab
initialize_group g =
    if g.is_ready || is_empty g.tabs || is_empty g.panels
    then g
    else record (activate_tab (selected_tab g.tabs) false false g) { is_ready = true }
