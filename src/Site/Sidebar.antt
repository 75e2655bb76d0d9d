-- ===== src/Site/Sidebar.antt =====
-- `initializePrimaryNavCollapse`: the primary navigation, which a wide window can collapse and local
-- storage remembers.
use inc_ql.Base.{
  String, List, [], ◌∷◌, Option, none, some, Bool, true, false, not, ◌&&◌, ◌==◌, if◌then◌else◌, ◌≡◌,
  refl, sym, ◌∙◌, arith,
}

-- Local storage, which throws on every access when it is not available.
pub record Storage : Type 0 where
  pub available : Bool
  pub item : Option String

pub record Sidebar : Type 0 where
  pub desktop : Bool
  pub storage : Storage
  pub collapsed : Bool
  pub body_collapsed : Bool
  pub toggle_hidden : Bool
  pub expanded : Bool
  pub label : String
  pub region_hidden : Bool

-- `window.localStorage.getItem(storageKey) === "true"`, and false if that throws.
unfoldable pub stored_collapsed : Storage → Bool
stored_collapsed s = s.available && elim s.item [ none ↦ false | some text ↦ text == "true" ]

-- `window.localStorage.setItem(storageKey, String(collapsed))`, and nothing if that throws.
unfoldable pub store_collapsed : Bool → Storage → Storage
store_collapsed collapsed s =
    if s.available then record s { item = some (if collapsed then "true" else "false") } else s

abbrev pub label_for_collapsed : Bool → String
label_for_collapsed is_collapsed =
    if is_collapsed then "Expand navigation" else "Collapse navigation"

unfoldable pub apply : Sidebar → Sidebar
apply s =
    let is_collapsed = s.desktop && s.collapsed in
    record s {
      body_collapsed = is_collapsed;
      toggle_hidden = not s.desktop;
      expanded = not is_collapsed;
      label = label_for_collapsed is_collapsed;
      region_hidden = is_collapsed;
    }

unfoldable pub toggle_sidebar : Sidebar → Sidebar
unfolding apply store_collapsed
toggle_sidebar s =
    let collapsed = not s.collapsed in
    apply (record s { collapsed = collapsed; storage = store_collapsed collapsed s.storage })

-- The page is shown, again or for the first time: the variables are new, storage is not.
unfoldable pub visit : Sidebar → Sidebar
unfolding apply stored_collapsed
visit s = apply (record s { collapsed = stored_collapsed s.storage })

pub data SidebarEvent : Type 0 where
  clicked : SidebarEvent
  media_changed : Bool → SidebarEvent
  visited : SidebarEvent

unfoldable pub handle : SidebarEvent → Sidebar → Sidebar
unfolding toggle_sidebar visit apply
handle clicked s = toggle_sidebar s
handle (media_changed desktop) s = apply (record s { desktop = desktop })
handle visited s = visit s

unfoldable pub handle_all : List SidebarEvent → Sidebar → Sidebar
handle_all [] s = s
handle_all (e ∷ es) s = handle_all es (handle e s)

-- What the page shows is what the variables say.
pub record IsApplied (s : Sidebar) : Type 0 where
  pub body_applied : s.body_collapsed ≡ (s.desktop && s.collapsed)
  pub toggle_applied : s.toggle_hidden ≡ not s.desktop
  pub expanded_applied : s.expanded ≡ not (s.desktop && s.collapsed)
  pub label_applied : s.label ≡ label_for_collapsed (s.desktop && s.collapsed)
  pub region_applied : s.region_hidden ≡ (s.desktop && s.collapsed)

-- Storage that is available says whether the navigation is collapsed.
abbrev pub IsStored : Sidebar → Type 0
IsStored s = s.storage.available ≡ true → stored_collapsed s.storage ≡ s.collapsed

apply-IsApplied : (s : Sidebar) → IsApplied (apply s)
unfolding apply
apply-IsApplied s = record {
  body_applied = refl;
  toggle_applied = refl;
  expanded_applied = refl;
  label_applied = refl;
  region_applied = refl;
}

handle-IsApplied : (e : SidebarEvent) (s : Sidebar) → IsApplied (handle e s)
unfolding handle toggle_sidebar visit
handle-IsApplied clicked s = apply-IsApplied (record s {
  collapsed = not s.collapsed;
  storage = store_collapsed (not s.collapsed) s.storage;
})
handle-IsApplied (media_changed desktop) s = apply-IsApplied (record s { desktop = desktop })
handle-IsApplied visited s = apply-IsApplied (record s { collapsed = stored_collapsed s.storage })

store-available : (c : Bool) (s : Storage) → (store_collapsed c s).available ≡ s.available
unfolding store_collapsed
store-available c s = ground arith

-- What was stored is read again.
stored-store :
    (c : Bool) (s : Storage) → s.available ≡ true → stored_collapsed (store_collapsed c s) ≡ c
unfolding store_collapsed stored_collapsed
stored-store true s h = rw h refl
stored-store false s h = rw h refl

handle-IsStored : (e : SidebarEvent) (s : Sidebar) → IsStored s → IsStored (handle e s)
unfolding handle toggle_sidebar visit apply stored_collapsed store_collapsed
handle-IsStored clicked s h k =
    stored-store (not s.collapsed) s.storage (sym (store-available (not s.collapsed) s.storage) ∙ k)
handle-IsStored (media_changed desktop) s h k = h k
handle-IsStored visited s h k = refl

handle_all-IsKept :
    (es : List SidebarEvent) (s : Sidebar)
    → IsApplied s
    → IsStored s
    → IsApplied (handle_all es s) × IsStored (handle_all es s)
unfolding handle_all
handle_all-IsKept [] s a k = (a, k)
handle_all-IsKept (e ∷ es) s a k =
    handle_all-IsKept es (handle e s) (handle-IsApplied e s) (handle-IsStored e s k)

visited-IsKept :
    (s : Sidebar) (es : List SidebarEvent)
    → IsApplied (handle_all es (visit s)) × IsStored (handle_all es (visit s))
unfolding visit
visited-IsKept s es =
    handle_all-IsKept es (visit s)
      (apply-IsApplied (record s { collapsed = stored_collapsed s.storage })) (λ k. refl)

-- After a first visit, and every sequence of clicks, changes of the window's width and further visits,
-- the page shows the navigation as the variables have it: collapsed if the window is wide and the
-- reader collapsed it, its toggle hidden in a narrow window and labelled with the opposite action.
visit-handle_all-IsApplied :
    (s : Sidebar) (es : List SidebarEvent) → IsApplied (handle_all es (visit s))
visit-handle_all-IsApplied s es = (visited-IsKept s es).0

-- With local storage available, a visit after a first visit and any sequence of events finds the
-- navigation collapsed if and only if the last page had it so.
pub visit_remembers :
    (s : Sidebar) (es : List SidebarEvent)
    → (handle_all es (visit s)).storage.available ≡ true
    → (visit (handle_all es (visit s))).collapsed ≡ (handle_all es (visit s)).collapsed
unfolding visit apply
visit_remembers s es k = (visited-IsKept s es).1 k
