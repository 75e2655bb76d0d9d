-- ===== src/Site/Tabs/Active.antt =====
-- `activateTab`: exactly one tab is active, and its panel is the one that shows.
use inc_ql.Base.{
  ℕ, zero, suc, ◌+◌, ◌<◌, String, List, [], ◌∷◌, Option, none, some, Bool, true, false, not, ◌||◌,
  if◌then◌else◌, length, get_elem?, is_empty, Option-cases, pos, negsuc, ◌≡◌, refl, ap, arith, inl,
  inr,
}
use inc_ql.Site.Tabs.{
  Tab, Panel, Group, set_active, clear_tabs, mark_tabs, is_controlled, mark_panels, activate,
  activate_tab, key_index, TabEvent, tab_clicked, tab_key, on_tab, run_tabs, first_from,
  selected_tab, initialize_group,
}

-- The tab carries the marks of an active one, or of one that is not.
abbrev pub IsMarked : Bool → Tab → Type 0
IsMarked is_active t =
    (t.aria_selected ≡ is_active) × (t.tab_index ≡ (if is_active then pos 0 else negsuc 0))

abbrev pub IsCleared : List Tab → Type 0
IsCleared [] = Unit
IsCleared (t ∷ ts) = IsMarked false t × IsCleared ts

-- The tab at the index, and no other, is marked as active; it controls this panel.
pub data IsActiveTab (controls : Option String) : ℕ → List Tab → Type 0 where
  is_here :
      {t : Tab} {ts : List Tab}
      → IsMarked true t
      → t.aria_controls ≡ controls
      → IsCleared ts
      → IsActiveTab controls zero (t ∷ ts)
  is_later :
      {i : ℕ} {t : Tab} {ts : List Tab}
      → IsMarked false t
      → IsActiveTab controls i ts
      → IsActiveTab controls (suc i) (t ∷ ts)

-- A panel is hidden unless it is the controlled one.
abbrev pub IsShownFor : Option String → List Panel → Type 0
IsShownFor controls [] = Unit
IsShownFor controls (p ∷ ps) =
    (p.is_hidden ≡ not (is_controlled controls p.id))
    × (p.panel_index ≡ pos 0)
    × IsShownFor controls ps

-- One tab is active, and the panels show what it controls.
abbrev pub IsConsistent : Group → Type 0
IsConsistent g =
    (i : ℕ) × (controls : Option String) × IsActiveTab controls i g.tabs
    × IsShownFor controls g.panels

clear_tabs-IsCleared : (ts : List Tab) → IsCleared (clear_tabs ts)
unfolding clear_tabs set_active
clear_tabs-IsCleared [] = tt
clear_tabs-IsCleared (t ∷ ts) = ((refl, refl), clear_tabs-IsCleared ts)

mark_tabs-IsActiveTab :
    (i : ℕ) (ts : List Tab) (next : Tab)
    → get_elem? ts i ≡ some next
    → IsActiveTab next.aria_controls i (mark_tabs i ts)
unfolding mark_tabs set_active
mark_tabs-IsActiveTab i [] next h = cc
mark_tabs-IsActiveTab zero (t ∷ ts) next h =
    is_here (refl, refl)
      (ap (λ (o : Option Tab). elim o [ none ↦ next.aria_controls | some u ↦ u.aria_controls ]) h)
      (clear_tabs-IsCleared ts)
mark_tabs-IsActiveTab (suc i) (t ∷ ts) next h =
    is_later (refl, refl) (mark_tabs-IsActiveTab i ts next h)

mark_panels-IsShownFor :
    (controls : Option String) (ps : List Panel) → IsShownFor controls (mark_panels controls ps)
unfolding mark_panels
mark_panels-IsShownFor controls [] = tt
mark_panels-IsShownFor controls (p ∷ ps) = (refl, refl, mark_panels-IsShownFor controls ps)

activate-IsConsistent :
    (i : ℕ) (next : Tab) (move_focus user_initiated : Bool) (g : Group)
    → get_elem? g.tabs i ≡ some next
    → IsConsistent (activate i (some next) move_focus user_initiated g)
unfolding activate
activate-IsConsistent i next move_focus user_initiated g h = (
  i,
  next.aria_controls,
  mark_tabs-IsActiveTab i g.tabs next h,
  mark_panels-IsShownFor next.aria_controls g.panels,
)

-- Activating a tab that exists makes the group consistent; another index changes nothing.
activate_tab-IsConsistent :
    (i : ℕ) (move_focus user_initiated : Bool) (g : Group)
    → IsConsistent g
    → IsConsistent (activate_tab i move_focus user_initiated g)
unfolding activate_tab activate
activate_tab-IsConsistent i move_focus user_initiated g c =
    elim (Option-cases (get_elem? g.tabs i)) [
      | inl e ↦ rw (e, activate) c
      | inr (next, e) ↦ rw e (activate-IsConsistent i next move_focus user_initiated g e)
    ]

on_tab-IsConsistent : (e : TabEvent) (g : Group) → IsConsistent g → IsConsistent (on_tab e g)
unfolding on_tab
on_tab-IsConsistent (tab_clicked i) g c = activate_tab-IsConsistent i false true g c
on_tab-IsConsistent (tab_key i key) g c = elim (Option-cases (key_index key i (length g.tabs))) [
  | inl e ↦ rw (e, on_tab) c
  | inr (next, e) ↦ rw (e, on_tab) (activate_tab-IsConsistent next true true g c)
]

run_tabs-IsConsistent :
    (es : List TabEvent) (g : Group) → IsConsistent g → IsConsistent (run_tabs es g)
unfolding run_tabs
run_tabs-IsConsistent [] g c = c
run_tabs-IsConsistent (e ∷ es) g c =
    run_tabs-IsConsistent es (on_tab e g) (on_tab-IsConsistent e g c)

get_of_lt {ℓ} :
    {A : Type ℓ} (i : ℕ) (xs : List A) → i < length xs → (x : A) × (get_elem? xs i ≡ some x)
get_of_lt i [] h = absurd (omega arith)
get_of_lt zero (x ∷ xs) h = (x, refl)
get_of_lt (suc i) (x ∷ xs) h = get_of_lt i xs (omega arith)

first_from-lt : (ts : List Tab) (k i : ℕ) → first_from k ts ≡ some i → i < k + length ts
unfolding first_from
first_from-lt [] k i h = cc
first_from-lt (t ∷ ts) k i h = ground (arith, first_from-lt ts (suc k) i)

selected_tab-lt : (ts : List Tab) → is_empty ts ≡ false → selected_tab ts < length ts
unfolding selected_tab
selected_tab-lt [] h = cc
selected_tab-lt (t ∷ ts) h = elim (Option-cases (first_from 0 (t ∷ ts))) [
  | inl e ↦ rw (e, selected_tab) (omega arith)
  | inr (i, e) ↦ rw (e, selected_tab) (omega (arith, first_from-lt (t ∷ ts) 0 i e))
]

initialize_group-IsConsistent :
    (g : Group)
    → (g.is_ready || is_empty g.tabs || is_empty g.panels) ≡ false
    → IsConsistent (initialize_group g)
unfolding initialize_group activate_tab
initialize_group-IsConsistent g h =
    let (next, e) =
      get_of_lt (selected_tab g.tabs) g.tabs (selected_tab-lt g.tabs (ground arith)) in
    rw (h, e) (activate-IsConsistent (selected_tab g.tabs) next false false g e)

-- Set up once, a group that has tabs and panels keeps exactly one tab selected and in the order of
-- the keyboard, and of its panels it shows those that this tab controls, whatever tabs are clicked and
-- keys pressed.
pub initialize-run_tabs-IsConsistent :
    (g : Group) (es : List TabEvent)
    → (g.is_ready || is_empty g.tabs || is_empty g.panels) ≡ false
    → IsConsistent (run_tabs es (initialize_group g))
initialize-run_tabs-IsConsistent g es h =
    run_tabs-IsConsistent es (initialize_group g) (initialize_group-IsConsistent g h)
